-- ===== src/Timeline/Channel.antt =====
-- apptail/pubchannel/pubchannel.go: a goroutine that publishes what others send on an unbuffered
-- channel. A sender waits until the goroutine receives its value. The steps are those of the senders,
-- of the goroutine, and of the one that closes `stopCh`.
pub mod Reached
use logyard_apps.Prelude.{◌≡◌, Bool, true, false, List, [], ◌∷◌, ◌++◌}
use logyard_apps.Prelude.Text.{Text}
use logyard_apps.Prelude.Run.{Error, Result, ok, err}
use logyard_apps.Sieve.Event.{Published}

-- Where the goroutine of `loop` stands.
pub data Phase : Type 0 where
  delaying : Phase  -- in the `select`
  ranging : Phase  -- in the `range`
  returned : Phase
  failed : Phase  -- `common.Fatal` has ended the process

pub record PubChannel (D : Type 0) : Type 0 where
  pub phase : Phase
  pub stop_closed : Bool
  pub senders : List D  -- the values whose senders wait
  pub published : Published

abbrev pub new_channel : {D : Type 0} → PubChannel D
new_channel = record { phase = delaying; stop_closed = false; senders = []; published = [] }

module _ {D : Type 0} (marshal : D → Result Text) (key : Text) where
  -- A sender is received in any order.
  pub data Step (s t : PubChannel D) : Type 0 where
    send : (d : D) → t ≡ record s { senders = s.senders ++ d ∷ [] } → Step s t
    close_stop : t ≡ record s { stop_closed = true } → Step s t
    delay_over : s.phase ≡ delaying → t ≡ record s { phase = ranging } → Step s t
    see_stop :
        s.phase ≡ delaying → s.stop_closed ≡ true → t ≡ record s { phase = returned } → Step s t
    receive :
        (before after : List D) (d : D) (text : Text)
        → s.phase ≡ ranging
        → s.senders ≡ before ++ d ∷ after
        → marshal d ≡ ok text
        → t ≡ record s { senders = before ++ after; published = (key, text) ∷ s.published }
        → Step s t
    receive_bad :
        (before after : List D) (d : D) (e : Error)
        → s.phase ≡ ranging
        → s.senders ≡ before ++ d ∷ after
        → marshal d ≡ err e
        → t ≡ record s { senders = before ++ after; phase = failed }
        → Step s t

  pub data Reach (s : PubChannel D) : PubChannel D → Type 0 where
    here : Reach s s
    next : {t u : PubChannel D} → Reach s t → Step t u → Reach s u
