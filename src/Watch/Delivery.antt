-- ===== src/Watch/Delivery.antt =====
-- Each event that the watcher passes to its callback is delivered, or is accounted for.
use effective_next.Prelude.{
  ℕ, ◌+◌, ◌≤◌, ◌≡◌, ◌⊎◌, inl, inr, refl, ap, sym, ◌∙◌, Bool, true, false, none, some, List, [], ◌∷◌,
  ◌++◌, String, length, length-append, ltb, str_dec, arith,
}
use effective_next.Prelude.Maps.{values, get, put}
use effective_next.Prelude.Sums.{sum, sum-append, sum-snoc}
use effective_next.Watch.{
  Event, Loop, selecting, called_back, written, Timer, resting, copied, emptied, events_cap,
  Watcher, new, call_back, noted, write_batch, test_timer, copy_batch, empty_batch, clear_timer,
  add_event, uncopied, replaced, race, Fate, also, Step, ignored, noticed, wrote, tested, fired,
  threw, cleared, sent, refused, taken, Reach, start, later,
}

sum-put :
    (w : Event → ℕ) (k : String) (e : Event) (m : List (String × Event))
    → sum w (values (put str_dec k e m))
        + sum w (elim (get str_dec m k) [ none ↦ [] | some old ↦ old ∷ [] ])
      ≡ sum w (values m) + w e
unfolding put get
sum-put w k e [] = omega arith
sum-put w k e ((j, f) ∷ m) = ground (arith, sum-put w k e m)

abbrev pub sum_all : (Event → ℕ) → List (List Event) → ℕ
sum_all w xs = sum (sum w) xs

abbrev pub is_empty : List Event → Bool
is_empty [] = true
is_empty (e ∷ es) = false

-- The event that the loop has still to write.
abbrev pub pending : Loop → List Event
pending selecting = []
pending (called_back e) = e ∷ []
pending written = []

-- The copy of the batch that the function of the timer has not begun to send.
abbrev pub copy : Timer → List Event
copy resting = []
copy (copied es _) = es
copy (emptied es) = es

-- What the function of the timer has not seen of the batch when it clears the timer.
abbrev pub unseen : Timer → List (String × Event) → List (String × Event)
unseen resting batch = []
unseen (copied _ fresh) batch = fresh
unseen (emptied _) batch = batch

pub record Inv (w : Watcher) (f : Fate) : Type 0 where
  pub waiting :
      (is_empty f.raced ≡ false) ⊎ ((w.batch ≡ []) ⊎ ((w.armed ≡ true) ⊎ (w.loop ≡ written)))
  pub unlost : (is_empty f.raced ≡ false) ⊎ (f.lost ≡ [])
  pub quiet : (is_empty f.raced ≡ false) ⊎ (unseen w.timer w.batch ≡ [])
  pub room : length w.events ≤ events_cap
  pub balance :
      (v : Event → ℕ)
      → sum v f.received
          + sum v w.events
          + sum_all v w.sending
          + sum v f.dropped
          + sum v (copy w.timer)
          + sum v (values (uncopied w.timer w.batch))
          + sum v (pending w.loop)
          + sum v f.superseded
          + sum v f.lost
        ≡ sum v w.called

moved_one :
    (v : Event → ℕ) (w : Watcher) (before after : List (List Event)) (e : Event) (rest : List Event)
    → w.sending ≡ before ++ (e ∷ rest) ∷ after
    → sum_all v w.sending ≡ v e + sum_all v (before ++ rest ∷ after)
moved_one v w before after e rest s = omega (
  arith,
  ap (sum_all v) s,
  sum-append (sum v) before ((e ∷ rest) ∷ after),
  sum-append (sum v) before (rest ∷ after),
)

selecting-written : ¬ (selecting ≡ written)
selecting-written e = cc

still_raced :
    (e : Event) (t : Timer) (raced : List Event)
    → is_empty raced ≡ false
    → is_empty (race e t ++ raced) ≡ false
unfolding race
still_raced e resting raced h = h
still_raced e (copied es fresh) raced h = refl
still_raced e (emptied es) raced h = refl

write_seen :
    (e : Event) (t : Timer) (batch : List (String × Event)) (raced : List Event)
    → (is_empty (race e t ++ raced) ≡ false)
      ⊎ (unseen (noted e t) (put str_dec e.path e batch) ≡ [])
unfolding race noted
write_seen e resting batch raced = inr refl
write_seen e (copied es fresh) batch raced = inl refl
write_seen e (emptied es) batch raced = inl refl

write_balance :
    (v : Event → ℕ) (e : Event) (t : Timer) (batch : List (String × Event))
    → sum v (copy (noted e t))
        + sum v (values (uncopied (noted e t) (put str_dec e.path e batch)))
        + sum v (replaced e.path (uncopied t batch))
      ≡ sum v (copy t) + sum v (values (uncopied t batch)) + v e
unfolding noted uncopied replaced
write_balance v e resting batch = omega (arith, sum-put v e.path e batch)
write_balance v e (copied es fresh) batch = omega (arith, sum-put v e.path e fresh)
write_balance v e (emptied es) batch = omega (arith, sum-put v e.path e batch)

Step-Inv : {w u : Watcher} {f g : Fate} → Step w u g → Inv w f → Inv u (also g f)
unfolding call_back write_batch test_timer copy_batch empty_batch clear_timer add_event uncopied
Step-Inv (ignored ev now l n) h = h
Step-Inv {w} (noticed ev now {e} l n r) h = record {
  waiting = elim h.waiting [
    | inl x ↦ inl x
    | inr (inl x) ↦ inr (inl x)
    | inr (inr (inl x)) ↦ inr (inr (inl x))
    | inr (inr (inr x)) ↦ absurd (selecting-written (sym l ∙ x))
  ];
  unlost = h.unlost;
  quiet = h.quiet;
  room = h.room;
  balance = λ v. omega (arith, h.balance v, ap (λ x. sum v (pending x)) l, sum-snoc v w.called e);
}
Step-Inv {w} {f} (wrote e l) h = record {
  waiting = inr (inr (inr refl));
  unlost = elim h.unlost [ inl x ↦ inl (still_raced e w.timer f.raced x) | inr x ↦ inr x ];
  quiet = write_seen e w.timer w.batch f.raced;
  room = h.room;
  balance = λ v. omega (
    arith,
    h.balance v,
    ap (λ x. sum v (pending x)) l,
    write_balance v e w.timer w.batch,
    sum-append v (replaced e.path (uncopied w.timer w.batch)) f.superseded,
  );
}
Step-Inv {w} (tested l) h = record {
  waiting = inr (inr (inl refl));
  unlost = h.unlost;
  quiet = h.quiet;
  room = h.room;
  balance = λ v. omega (arith, h.balance v, ap (λ x. sum v (pending x)) l);
}
Step-Inv {w} (fired on r) h = record {
  waiting = inr (inr (inl on));
  unlost = h.unlost;
  quiet = inr refl;
  room = h.room;
  balance = λ v. omega (
    arith,
    h.balance v,
    ap (λ t. sum v (copy t)) r,
    ap (λ t. sum v (values (uncopied t w.batch))) r,
  );
}
Step-Inv {w} {f} (threw es fresh r) h = record {
  waiting = inr (inl refl);
  unlost = elim h.quiet [
    | inl x ↦ inl x
    | inr q ↦ elim h.unlost [
      | inl x ↦ inl x
      | inr kept ↦
          inr (ap (λ m. values m ++ f.lost) (ap (λ t. unseen t w.batch) (sym r) ∙ q) ∙ kept)
    ]
  ];
  quiet = inr refl;
  room = h.room;
  balance = λ v. omega (
    arith,
    h.balance v,
    ap (λ t. sum v (copy t)) r,
    ap (λ t. sum v (values (uncopied t w.batch))) r,
    sum-append v (values fresh) f.lost,
  );
}
Step-Inv {w} (cleared es r) h = record {
  waiting = elim h.quiet [
    | inl x ↦ inl x
    | inr q ↦ inr (inl (ap (λ t. unseen t w.batch) (sym r) ∙ q))
  ];
  unlost = h.unlost;
  quiet = inr refl;
  room = h.room;
  balance = λ v. omega (
    arith,
    h.balance v,
    ap (λ t. sum v (copy t)) r,
    ap (λ t. sum v (values (uncopied t w.batch))) r,
    sum-append (sum v) w.sending (es ∷ []),
  );
}
Step-Inv {w} (sent before after e rest s l) h =
    let free : ltb (length w.events) events_cap ≡ true = ground arith in
    rw free (record {
      waiting = h.waiting;
      unlost = h.unlost;
      quiet = h.quiet;
      room = omega (arith, length-append w.events (e ∷ []));
      balance = λ v.
          omega (arith, h.balance v, moved_one v w before after e rest s, sum-snoc v w.events e);
    })
Step-Inv {w} (refused before after e rest s l) h =
    let full : ltb (length w.events) events_cap ≡ false = ground arith in
    rw full (record {
      waiting = h.waiting;
      unlost = h.unlost;
      quiet = h.quiet;
      room = h.room;
      balance = λ v. omega (arith, h.balance v, moved_one v w before after e rest s);
    })
Step-Inv {w} (taken {e} {rest} s) h = record {
  waiting = h.waiting;
  unlost = h.unlost;
  quiet = h.quiet;
  room = omega (arith, h.room, ap length s);
  balance = λ v. omega (arith, h.balance v, ap (sum v) s);
}

pub Reach-Inv : {w : Watcher} {f : Fate} → Reach w f → Inv w f
unfolding new uncopied
Reach-Inv start = record {
  waiting = inr (inl refl);
  unlost = inr refl;
  quiet = inr refl;
  room = omega arith;
  balance = λ v. refl;
}
Reach-Inv (later r st) = Step-Inv st (Reach-Inv r)
