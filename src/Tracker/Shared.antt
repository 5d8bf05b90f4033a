-- ===== src/Tracker/Shared.antt =====
-- apptail/storage/tail_tracker.go, the tracker as its goroutines share it. `Update` does not hold the
-- mutex: its lookups and its store are single steps here, between which the others go on. Maps and
-- boxed offsets are objects with addresses, since a goroutine keeps those that it has looked up.
-- An access of a map is one step, though Go leaves it open what a lookup does while another
-- goroutine writes the map.
pub mod Separate
pub mod Sound
pub mod Current
pub mod Looks
pub mod Linear
use logyard_apps.Prelude.{
  ℕ, ◌+◌, ◌≡◌, Bool, true, false, ◌&&◌, Option, none, some, List, [], ◌∷◌, ◌++◌, nat_eq,
  if◌then◌else◌,
}
use logyard_apps.Prelude.Text.{Text}
use logyard_apps.Prelude.Int.{ℤ, pos}
use logyard_apps.Prelude.Dict.{Dict, get, put, delete, contains}
use logyard_apps.Tracker.Spec.{Op, register, initialize, move, drop_instance}

abbrev pub set {ℓ} : {A : Type ℓ} → (ℕ → A) → ℕ → A → ℕ → A
set f n x m = if nat_eq n m then x else f m

-- `Cached.Instances`, the `TailNode`s and the boxed offsets, by their addresses.
pub record Heap : Type 0 where
  pub instances : Dict ℕ
  pub nodes : ℕ → Dict ℕ
  pub boxes : ℕ → ℤ
  pub next_node : ℕ
  pub next_box : ℕ

-- The methods that hold the mutex, from when they have it until they give it back.
unfoldable pub register_locked : Text → Heap → Heap
register_locked k h = if contains h.instances k then h else record h {
  instances = put h.instances k h.next_node;
  nodes = set h.nodes h.next_node [];
  next_node = h.next_node + 1;
}

initialize_at : Option ℕ → Text → ℤ → Heap → Heap
initialize_at none c x h = h
initialize_at (some n) c x h = if contains (h.nodes n) c then h else record h {
  nodes = set h.nodes n (put (h.nodes n) c h.next_box);
  boxes = set h.boxes h.next_box x;
  next_box = h.next_box + 1;
}

-- The map of the instance is put back where it was.
unfoldable pub initialize_locked : Text → Text → ℤ → Heap → Heap
unfolding initialize_at
initialize_locked k c x h = initialize_at (get h.instances k) c x h

-- The `delete` of `Remove`, and each one of the loop of `CleanUp`.
unfoldable pub delete_locked : Text → Heap → Heap
delete_locked k h = record h { instances = delete h.instances k }

-- Where a goroutine stands in `Update`, with the arguments of the call and what it has looked up.
pub data Phase : Type 0 where
  idle : Phase
  called : Text → Text → ℤ → Phase
  has_node : Text → Text → ℤ → ℕ → Phase  -- tailNode
  has_child : Text → Text → ℤ → ℕ → Phase  -- childNode_exist
  has_box : Text → Text → ℤ → ℕ → ℕ → Phase  -- tailNode[childKey]
  nil_box : Phase  -- a nil dereference has ended the process

-- The next step of a goroutine in `Update`.
unfoldable pub advance : Heap → Phase → Heap × Phase
advance h idle = (h, idle)
advance h (called k c x) = elim (get h.instances k) [
  | none ↦ (h, idle)
  | some n ↦ (h, has_node k c x n)
]
advance h (has_node k c x n) = if contains (h.nodes n) c then (h, has_child k c x n) else (h, idle)
advance h (has_child k c x n) = elim (get (h.nodes n) c) [
  | none ↦ (h, nil_box)
  | some b ↦ (h, has_box k c x n b)
]
advance h (has_box k c x n b) = (record h { boxes = set h.boxes b x }, idle)
advance h nil_box = (h, nil_box)

pub record Shared : Type 0 where
  pub heap : Heap
  pub phases : ℕ → Phase  -- by goroutine

pub data Action : Type 0 where
  registers : Text → Action
  initializes : Text → Text → ℤ → Action
  deletes : Text → Action
  calls_update : ℕ → Text → Text → ℤ → Action
  advances : ℕ → Action

abbrev pub begin : Phase → Text → Text → ℤ → Phase
begin idle k c x = called k c x
begin other k c x = other

unfoldable pub act : Action → Shared → Shared
act (registers k) s = record s { heap = register_locked k s.heap }
act (initializes k c x) s = record s { heap = initialize_locked k c x s.heap }
act (deletes k) s = record s { heap = delete_locked k s.heap }
act (calls_update i k c x) s = record s { phases = set s.phases i (begin (s.phases i) k c x) }
act (advances i) s =
    let (h, p) = advance s.heap (s.phases i) in record { heap = h; phases = set s.phases i p }

unfoldable pub act_all : List Action → Shared → Shared
act_all [] s = s
act_all (a ∷ rest) s = act_all rest (act a s)

abbrev pub new_shared : Shared
new_shared = record {
  heap = record {
    instances = [];
    nodes = λ n. [];
    boxes = λ b. pos 0;
    next_node = 0;
    next_box = 0;
  };
  phases = λ i. idle;
}

abbrev is_at : Option ℕ → ℕ → Bool
is_at none n = false
is_at (some m) n = nat_eq m n

-- The whole calls that a step amounts to. `Update` happens at its store, if the map that it has
-- looked up is still that of the instance; otherwise it does nothing.
abbrev pub effect_of : Heap → Phase → List Op
effect_of h (has_box k c x n b) = if is_at (get h.instances k) n then move k c x ∷ [] else []
effect_of h other = []

abbrev pub effect : Action → Shared → List Op
effect (registers k) s = register k ∷ []
effect (initializes k c x) s = initialize k c x ∷ []
effect (deletes k) s = drop_instance k ∷ []
effect (calls_update i k c x) s = []
effect (advances i) s = effect_of s.heap (s.phases i)

unfoldable pub effects : List Action → Shared → List Op
effects [] s = []
effects (a ∷ rest) s = effect a s ++ effects rest (act a s)
