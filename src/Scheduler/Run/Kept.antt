-- ===== src/Scheduler/Run/Kept.antt =====
-- What each step of `Run` keeps: the count of its steps, room in the channel, and where the errors are from.
use effective_next.Prelude.{
  ℕ, ◌+◌, ◌*◌, ◌≤◌, ◌≡◌, ◌⊎◌, inl, inr, refl, ap, sym, ◌∙◌, subst, Bool, true, false, ◌||◌, some,
  none, List, [], ◌∷◌, ◌++◌, append-nil, String, str_dec, length, length-append, contains,
  contains-append, ite, arith,
}
use effective_next.Scheduler.{Error, Scheduler}
use effective_next.Scheduler.Run.{
  Runner, begin_run, spawn, end_task, send_error, call, launched, succeeded, failed, Reach, start,
  later,
}

-- Every error in the list is the one that the function of a launched task returns.
unfoldable pub Sent : Scheduler → List String → List Error → Type 0
Sent s ids [] = Unit
Sent s ids (e ∷ es) =
    ((id : String) × (contains str_dec ids id ≡ true) × (call s.tasks id ≡ some (some e)))
    × Sent s ids es

abbrev pub no_error : List Error → Bool
no_error [] = true
no_error (e ∷ es) = false

pub record Inv (s : Scheduler) (n : ℕ) (ids : List String) (r : Runner) : Type 0 where
  pub steps : n + length r.running ≡ 2 * length ids
  pub room : length r.errors + length r.running ≤ length ids
  pub known : (id : String) → contains str_dec r.running id ≡ true → contains str_dec ids id ≡ true
  pub sent : Sent s ids r.errors
  pub done :
      (id : String)
      → contains str_dec ids id ≡ true
      → (contains str_dec r.running id ≡ true)
        ⊎ ((call s.tasks id ≡ some none) ⊎ (no_error r.errors ≡ false))

Sent-more :
    (s : Scheduler) (ids more : List String) (es : List Error)
    → Sent s ids es
    → Sent s (ids ++ more) es
unfolding Sent
Sent-more s ids more [] h = tt
Sent-more s ids more (e ∷ es) ((id, k, c), h) =
    ((id, contains-append str_dec ids more id ∙ (ground (arith, k)), c), Sent-more s ids more es h)

Sent-snoc :
    (s : Scheduler) (ids : List String) (es : List Error) (id : String) (e : Error)
    → Sent s ids es
    → contains str_dec ids id ≡ true
    → call s.tasks id ≡ some (some e)
    → Sent s ids (es ++ e ∷ [])
unfolding Sent
Sent-snoc s ids [] id e h k c = ((id, k, c), tt)
Sent-snoc s ids (x ∷ es) id e h k c = (h.0, Sent-snoc s ids es id e h.1 k c)

-- The goroutine that ends is one of those that run.
one_out :
    (running before after : List String) (id x : String)
    → running ≡ before ++ id ∷ after
    → contains str_dec running x
      ≡ (contains str_dec before x || ite (str_dec id x) true (contains str_dec after x))
unfolding contains
one_out running before after id x q =
    ap (λ l. contains str_dec l x) q ∙ contains-append str_dec before (id ∷ after) x

-- What an end of a goroutine does to those that run.
record IsEnd (running left : List String) (id : String) : Type 0 where
  was : contains str_dec running id ≡ true
  less : (x : String) → contains str_dec left x ≡ true → contains str_dec running x ≡ true
  rest :
      (x : String) → contains str_dec running x ≡ true → (id ≡ x) ⊎ (contains str_dec left x ≡ true)
  shorter : length running ≡ length left + 1

one_out-IsEnd :
    (running before after : List String) (id : String)
    → running ≡ before ++ id ∷ after
    → IsEnd running (before ++ after) id
one_out-IsEnd running before after id q = record {
  was = ground (arith, one_out running before after id id q);
  less = λ x k.
      ground
        (arith, k, one_out running before after id x q, contains-append str_dec before after x);
  rest = λ x k.
      ground
        (arith, k, one_out running before after id x q, contains-append str_dec before after x);
  shorter =
      omega (arith, ap length q, length-append before (id ∷ after), length-append before after);
}

snoc_cases :
    (xs : List String) (y x : String)
    → contains str_dec (xs ++ y ∷ []) x ≡ true
    → (contains str_dec xs x ≡ true) ⊎ (y ≡ x)
unfolding contains
snoc_cases xs y x k = ground (arith, k, contains-append str_dec xs (y ∷ []) x)

snoc-no_error : (es : List Error) (e : Error) → no_error (es ++ e ∷ []) ≡ false
snoc-no_error [] e = refl
snoc-no_error (x ∷ es) e = refl

pub Reach-Inv :
    {s : Scheduler} {n : ℕ} {ids : List String} {r : Runner} → Reach s n ids r → Inv s n ids r
unfolding begin_run spawn end_task send_error Sent contains
Reach-Inv start = record {
  steps = omega arith;
  room = omega arith;
  known = λ id k. absurd (ground (arith, k));
  sent = tt;
  done = λ id k. absurd (ground (arith, k));
}
Reach-Inv {s} (later {n} {ids} {r} before (launched id rest q)) =
    let h = Reach-Inv before in
    record {
      steps =
          omega (arith, h.steps, length-append r.running (id ∷ []), length-append ids (id ∷ []));
      room = omega (arith, h.room, length-append r.running (id ∷ []), length-append ids (id ∷ []));
      known = λ x k. elim (snoc_cases r.running id x k) [
        | inl old ↦ contains-append str_dec ids (id ∷ []) x ∙ (ground (arith, h.known x old))
        | inr new ↦ contains-append str_dec ids (id ∷ []) x ∙ (ground (arith, new))
      ];
      sent = Sent-more s ids (id ∷ []) r.errors h.sent;
      done = λ x k. elim (snoc_cases ids id x k) [
        | inl old ↦ elim (h.done x old) [
          | inl runs ↦ inl (contains-append str_dec r.running (id ∷ []) x ∙ (ground (arith, runs)))
          | inr ended ↦ inr ended
        ]
        | inr new ↦ inl (contains-append str_dec r.running (id ∷ []) x ∙ (ground (arith, new)))
      ];
    }
Reach-Inv {s} (later {n} {ids} {r} before (succeeded left right id q c)) =
    let h = Reach-Inv before in
    let ending = one_out-IsEnd r.running left right id q in
    subst (λ l. Inv s (n + 1) l (end_task left right r)) (sym (append-nil ids))
      (record {
        steps = omega (arith, h.steps, ending.shorter);
        room = omega (arith, h.room, ending.shorter);
        known = λ x k. h.known x (ending.less x k);
        sent = h.sent;
        done = λ x k. elim (h.done x k) [
          | inr ended ↦ inr ended
          | inl runs ↦ elim (ending.rest x runs) [
            | inl this ↦ inr (inl (ap (call s.tasks) (sym this) ∙ c))
            | inr other ↦ inl other
          ]
        ];
      })
Reach-Inv {s} (later {n} {ids} {r} before (failed left right id e q c l)) =
    let h = Reach-Inv before in
    let ending = one_out-IsEnd r.running left right id q in
    subst (λ l. Inv s (n + 1) l (end_task left right (send_error e r))) (sym (append-nil ids))
      (record {
        steps = omega (arith, h.steps, ending.shorter);
        room = omega (arith, h.room, ending.shorter, length-append r.errors (e ∷ []));
        known = λ x k. h.known x (ending.less x k);
        sent = Sent-snoc s ids r.errors id e h.sent (h.known id ending.was) c;
        done = λ x k. inr (inr (snoc-no_error r.errors e));
      })
