-- ===== src/Odgm/RaftLog/Log.antt =====
-- Lists of log entries in the order of their indexes.
use oaa_s_io_t.Prelude.{
  ◌<◌, ◌≤◌, ◌≡◌, refl, subst, List, [], ◌∷◌, ◌++◌, Bool, true, none, some, All, filter, arith,
}
use oaa_s_io_t.Odgm.RaftLog.Types.{Openraft}
use oaa_s_io_t.Odgm.RaftLog.Spec.{index_of, HasNext, IsLog, last}

some_injective : {A : Type 0} {x y : A} → some x ≡ some y → x ≡ y
some_injective h = ground (arith, h)

module _ (r : Openraft) where
  pub All-filter :
      (P : r.Entry → Type 0) (q : r.Entry → Bool) (log : List r.Entry)
      → All P log
      → All P (filter q log)
  All-filter P q [] h = tt
  All-filter P q (e ∷ log) h = ground (arith, All-filter P q log h.1)

  pub All-last :
      (P : r.Entry → Type 0) (log : List r.Entry) (e : r.Entry) → All P (log ++ e ∷ []) → P e
  All-last P [] e h = h.0
  All-last P (f ∷ log) e h = All-last P log e h.1

  pub IsLog-HasNext : (log : List r.Entry) → IsLog r log → All (λ e. HasNext r (index_of r e)) log
  IsLog-HasNext [] h = tt
  IsLog-HasNext (e ∷ log) h = (h.0, IsLog-HasNext log h.2)

  pub filter-IsLog :
      (q : r.Entry → Bool) (log : List r.Entry) → IsLog r log → IsLog r (filter q log)
  filter-IsLog q [] h = tt
  filter-IsLog q (e ∷ log) h =
      ground
        (arith, filter-IsLog q log h.2, All-filter (λ f. index_of r e < index_of r f) q log h.1)

  pub last-All :
      (P : r.Entry → Type 0) (log : List r.Entry) (e : r.Entry)
      → last r log ≡ some e
      → All P log
      → P e
  last-All P [] e h p = ground arith
  last-All P (x ∷ []) e h p = subst P (some_injective h) p.0
  last-All P (x ∷ y ∷ log) e h p = last-All P (y ∷ log) e h p.1

  -- Two tests that agree on a log filter it alike.
  pub filter_agree :
      (p q : r.Entry → Bool) (log : List r.Entry)
      → All (λ e. p e ≡ q e) log
      → filter p log ≡ filter q log
  filter_agree p q [] h = refl
  filter_agree p q (e ∷ log) h = ground (arith, filter_agree p q log h.1)

  pub All-prefix : (P : r.Entry → Type 0) (xs ys : List r.Entry) → All P (xs ++ ys) → All P xs
  All-prefix P [] ys h = tt
  All-prefix P (x ∷ xs) ys h = (h.0, All-prefix P xs ys h.1)

  pub prefix-IsLog : (xs ys : List r.Entry) → IsLog r (xs ++ ys) → IsLog r xs
  prefix-IsLog [] ys h = tt
  prefix-IsLog (x ∷ xs) ys h = (h.0, All-prefix _ xs ys h.1, prefix-IsLog xs ys h.2)

  -- The last entry has the greatest index.
  pub last-max :
      (log : List r.Entry) (x : r.Entry)
      → IsLog r log
      → last r log ≡ some x
      → All (λ e. index_of r e ≤ index_of r x) log
  last-max [] x h e = tt
  last-max (y ∷ []) x h e = ground arith
  last-max (y ∷ z ∷ log) x h e = (
    omega (arith, last-All (λ w. index_of r y < index_of r w) (z ∷ log) x e h.1),
    last-max (z ∷ log) x h.2 e,
  )

  pub filter-All :
      (p : r.Entry → Bool) (log : List r.Entry) → All (λ e. p e ≡ true) log → filter p log ≡ log
  filter-All p [] h = refl
  filter-All p (e ∷ log) h = ground (arith, filter-All p log h.1)

  pub All-imp :
      {P Q : r.Entry → Type 0}
      → ((e : r.Entry) → P e → Q e)
      → (log : List r.Entry) → All P log
      → All Q log
  All-imp g [] h = tt
  All-imp g (e ∷ log) h = (g e h.0, All-imp g log h.1)

  pub pointwise : {P : r.Entry → Type 0} → ((e : r.Entry) → P e) → (log : List r.Entry) → All P log
  pointwise g [] = tt
  pointwise g (e ∷ log) = (g e, pointwise g log)

  pub last-none : (log : List r.Entry) → last r log ≡ none → log ≡ []
  last-none [] h = refl
  last-none (x ∷ []) h = ground arith
  last-none (x ∷ y ∷ log) h = ground (arith, last-none (y ∷ log) h)
