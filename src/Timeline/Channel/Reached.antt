-- ===== src/Timeline/Channel/Reached.antt =====
-- Who is served by a publishing channel.
use mathlib.Core.List.{Perm}
use logyard_apps.Prelude.{
  inr, map, subst, ◌≡◌, refl, ◌∙◌, ap, List, [], ◌∷◌, ◌++◌, append-nil, length, ℕ, ◌⊎◌, inl, arith,
}
use logyard_apps.Prelude.Text.{Text}
use logyard_apps.Prelude.Run.{Result, Error, ok, err}
use mathlib.Core.List.Perm
use mathlib.Core.List.{perm_middle}
use logyard_apps.Timeline.Channel.{
  Phase, delaying, ranging, returned, failed, PubChannel, Step, send, close_stop, delay_over,
  see_stop, receive, receive_bad, Reach, here, next, new_channel,
}

-- One more value, at the end of what was sent and of those that wait.
sent_last :
    {D : Type 0} (d : D) (sent senders bad got : List D)
    → Perm sent (senders ++ bad ++ got)
    → Perm (sent ++ d ∷ []) ((senders ++ d ∷ []) ++ bad ++ got)
sent_last d sent senders bad got p = Perm.trans (Perm.append_right (d ∷ []) p) (
    Perm.trans
      (subst (λ l. Perm ((senders ++ bad ++ got) ++ d ∷ []) (d ∷ l)) (append-nil _)
        (perm_middle (senders ++ bad ++ got) []))
      (Perm.symm (
        subst (λ l. Perm ((senders ++ d ∷ []) ++ bad ++ got) (d ∷ (l ++ bad ++ got)))
          (append-nil senders)
          (Perm.append_right got (Perm.append_right bad (perm_middle senders []))))))

module _ {D : Type 0} (marshal : D → Result Text) (key : Text) where
  Step-ranging :
      {s t : PubChannel D}
      → (s.phase ≡ ranging) ⊎ (s.phase ≡ failed)
      → Step marshal key s t
      → (t.phase ≡ ranging) ⊎ (t.phase ≡ failed)
  Step-ranging h st = ground (arith, h)

  -- A goroutine whose delay is over never returns, also after `stopCh` is closed: it goes on, or it
  -- fails and ends the process.
  pub ranging_never_returns :
      {s t : PubChannel D}
      → s.phase ≡ ranging
      → Reach marshal key s t
      → (t.phase ≡ ranging) ⊎ (t.phase ≡ failed)
  ranging_never_returns h here = inl h
  ranging_never_returns h (next r st) = Step-ranging (ranging_never_returns h r) st

  -- The values that were sent on the way.
  abbrev pub sends : {s t : PubChannel D} → Reach marshal key s t → List D
  sends here = []
  sends (next r (send d e)) = sends r ++ d ∷ []
  sends (next r (close_stop e)) = sends r
  sends (next r (delay_over p e)) = sends r
  sends (next r (see_stop p q e)) = sends r
  sends (next r (receive before after d text p q m e)) = sends r
  sends (next r (receive_bad before after d x p q m e)) = sends r

  abbrev pub fatal_values : Phase → ℕ
  fatal_values delaying = 0
  fatal_values ranging = 0
  fatal_values returned = 0
  fatal_values failed = 1

  -- `got` were published, each as its JSON text, and `bad` ended the process.
  pub record IsServed (sent : List D) (t : PubChannel D) (got bad : List D) : Type 0 where
    pub each_once : Perm sent (t.senders ++ bad ++ got)
    pub texts : List Text
    pub encoded : map marshal got ≡ map ok texts
    pub published : t.published ≡ map (λ text. (key, text)) texts
    pub refused : (bad ≡ []) ⊎ ((d : D) × (e : Error) × (bad ≡ d ∷ []) × (marshal d ≡ err e))
    pub ended : length bad ≡ fatal_values t.phase

  none_bad :
      (bad : List D) (t : PubChannel D)
      → length bad ≡ fatal_values t.phase
      → t.phase ≡ ranging
      → bad ≡ []
  none_bad [] t l p = refl
  none_bad (d ∷ bad) t l p = absurd (ground (arith, l, p))

  -- The other facts do not depend on the senders.
  other_phase :
      {sent sent' got bad : List D} {s : PubChannel D} (t : PubChannel D)
      → IsServed sent s got bad
      → Perm sent' (t.senders ++ bad ++ got)
      → t.published ≡ s.published
      → fatal_values s.phase ≡ fatal_values t.phase
      → IsServed sent' t got bad
  other_phase t w each published phase = record {
    each_once = each;
    texts = w.texts;
    encoded = w.encoded;
    published = published ∙ w.published;
    refused = w.refused;
    ended = w.ended ∙ phase;
  }

  -- No value is lost or published twice: the values that were sent from the start are, in
  -- some order, those that wait, those that were published, the last first and each as its JSON text
  -- under the key of the channel, and the one, exactly if the process has failed, that could not be
  -- encoded.
  pub sends_lem :
      {t : PubChannel D} (r : Reach marshal key new_channel t)
      → (got : List D) × (bad : List D) × IsServed (sends r) t got bad
  sends_lem here = (
    [],
    [],
    record {
      each_once = Perm.refl [];
      texts = [];
      encoded = refl;
      published = refl;
      refused = inl refl;
      ended = refl;
    },
  )
  sends_lem (next {t} r (send d e)) =
      let (got, bad, w) = sends_lem r in
      rw e
        (got, bad, other_phase _ w (sent_last d (sends r) t.senders bad got w.each_once) refl refl)
  sends_lem (next r (close_stop e)) =
      let (got, bad, w) = sends_lem r in rw e (got, bad, other_phase _ w w.each_once refl refl)
  sends_lem (next r (delay_over p e)) =
      let (got, bad, w) = sends_lem r in
      rw e (got, bad, other_phase _ w w.each_once refl (ground (arith, p)))
  sends_lem (next r (see_stop p q e)) =
      let (got, bad, w) = sends_lem r in
      rw e (got, bad, other_phase _ w w.each_once refl (ground (arith, p)))
  sends_lem (next {t} r (receive before after d text p q m e)) =
      let (got, bad, w) = sends_lem r in
      rw e (
        d ∷ got,
        bad,
        record {
          each_once = Perm.trans (subst (λ l. Perm (sends r) (l ++ bad ++ got)) q w.each_once) (
              Perm.trans (Perm.append_right got (Perm.append_right bad (perm_middle before after)))
                (Perm.symm (perm_middle (before ++ after ++ bad) got)));
          texts = text ∷ w.texts;
          encoded = rw (m, w.encoded) refl;
          published = ap (◌∷◌ (key, text)) w.published;
          refused = w.refused;
          ended = w.ended;
        },
      )
  sends_lem (next {t} r (receive_bad before after d x p q m e)) =
      let (got, bad, w) = sends_lem r in
      rw e (
        got,
        d ∷ [],
        record {
          each_once =
              Perm.trans
                (subst (λ l. Perm (sends r) (l ++ [] ++ got)) q
                  (subst (λ b. Perm (sends r) (t.senders ++ b ++ got)) (none_bad bad t w.ended p)
                    w.each_once))
                (Perm.trans
                  (Perm.append_right got (Perm.append_right [] (perm_middle before after)))
                  (Perm.symm (Perm.append_right got (perm_middle (before ++ after) []))));
          texts = w.texts;
          encoded = w.encoded;
          published = w.published;
          refused = inr (d, x, refl, m);
          ended = refl;
        },
      )
