-- ===== src/Events/Store/Statement/Meaning.antt =====
-- The placeholders of a statement that is put together term by term keep their meaning.
use tiny_mite.Events.Store.{EventRow}
use tiny_mite.Events.Store.Statement.{Param, Term, Statement, text_at, holds}
use tiny_mite.Events.Store.Statement.Building.{with_term, with_limit, with_offset}
use mathlib.Core.Option
use tiny_mite.Prelude.{
  ℕ, zero, suc, ◌+◌, ◌≤◌, ◌≡◌, refl, ap, ◌∙◌, Bool, true, ◌&&◌, String, Option, some, none, List,
  [], ◌∷◌, ◌++◌, length, length-append, all, all-append, All, u64, arith,
}

text_at-append : (i : ℕ) (ps qs : List Param) → i ≤ length ps → text_at i (ps ++ qs) ≡ text_at i ps
text_at-append zero [] [] h = refl
text_at-append zero [] (q ∷ qs) h = refl
text_at-append (suc n) [] qs h = absurd (omega arith)
text_at-append zero (p ∷ ps) qs h = refl
text_at-append (suc zero) (Param.text v ∷ ps) qs h = refl
text_at-append (suc zero) (Param.integer v ∷ ps) qs h = refl
text_at-append (suc (suc n)) (p ∷ ps) qs h = text_at-append (suc n) ps qs (omega arith)

text_at-next :
    (i : ℕ) (v : String) (ps qs : List Param)
    → i ≡ suc (length ps)
    → text_at i (ps ++ Param.text v ∷ qs) ≡ some v
text_at-next zero v ps qs h = absurd (omega arith)
text_at-next (suc zero) v [] qs h = refl
text_at-next (suc zero) v (p ∷ ps) qs h = absurd (omega arith)
text_at-next (suc (suc n)) v [] qs h = absurd (omega arith)
text_at-next (suc (suc n)) v (p ∷ ps) qs h = text_at-next (suc n) v ps qs (omega arith)

-- Every placeholder of the term is one of the first `n`.
abbrev pub Fits : ℕ → Term → Type 0
Fits n (Term.after_event i j) = (i ≤ n) × (j ≤ n)
Fits n (Term.event_type_like i) = i ≤ n
Fits n (Term.correlation_is i) = i ≤ n
Fits n (Term.causation_is i) = i ≤ n
Fits n (Term.source_is i) = i ≤ n
Fits n (Term.at_or_after i) = i ≤ n
Fits n (Term.at_or_before i) = i ≤ n

Fits-mono : (m n : ℕ) (t : Term) → m ≤ n → Fits m t → Fits n t
Fits-mono m n (Term.after_event i j) h (hi, hj) = (omega arith, omega arith)
Fits-mono m n (Term.event_type_like i) h f = omega arith
Fits-mono m n (Term.correlation_is i) h f = omega arith
Fits-mono m n (Term.causation_is i) h f = omega arith
Fits-mono m n (Term.source_is i) h f = omega arith
Fits-mono m n (Term.at_or_after i) h f = omega arith
Fits-mono m n (Term.at_or_before i) h f = omega arith

All-Fits-mono : {m n : ℕ} (ts : List Term) → m ≤ n → All (Fits m) ts → All (Fits n) ts
All-Fits-mono [] h fs = tt
All-Fits-mono {m} {n} (t ∷ ts) h (f, fs) = (Fits-mono m n t h f, All-Fits-mono ts h fs)

All-snoc {ℓ κ} :
    {A : Type ℓ} (P : A → Type κ) (xs : List A) (x : A) → All P xs → P x → All P (xs ++ x ∷ [])
All-snoc P [] x _ h = (h, tt)
All-snoc P (y ∷ ys) x (hy, hs) h = (hy, All-snoc P ys x hs h)

-- A criterion that a filter leaves out holds of every row.
abbrev pub optional {ℓ} : {A : Type ℓ} → Option A → (A → Bool) → Bool
optional none p = true
optional (some a) p = p a

module _ (like text_before : String → String → Bool) where
  -- The WHERE clause holds of the row.
  abbrev pub satisfied : Statement → EventRow → Bool
  satisfied s r = all (holds like text_before s.params r) s.terms

  holds-append :
      (t : Term) (r : EventRow) (ps qs : List Param)
      → Fits (length ps) t
      → holds like text_before (ps ++ qs) r t ≡ holds like text_before ps r t
  unfolding holds
  holds-append (Term.after_event i j) r ps qs (hi, hj) =
      rw (text_at-append i ps qs hi, text_at-append j ps qs hj)
  holds-append (Term.event_type_like i) r ps qs h = rw (text_at-append i ps qs h)
  holds-append (Term.correlation_is i) r ps qs h = rw (text_at-append i ps qs h)
  holds-append (Term.causation_is i) r ps qs h = rw (text_at-append i ps qs h)
  holds-append (Term.source_is i) r ps qs h = rw (text_at-append i ps qs h)
  holds-append (Term.at_or_after i) r ps qs h = rw (text_at-append i ps qs h)
  holds-append (Term.at_or_before i) r ps qs h = rw (text_at-append i ps qs h)

  all-holds-append :
      (ts : List Term) (r : EventRow) (ps qs : List Param)
      → All (Fits (length ps)) ts
      → all (holds like text_before (ps ++ qs) r) ts ≡ all (holds like text_before ps r) ts
  all-holds-append [] r ps qs _ = refl
  all-holds-append (t ∷ ts) r ps qs (h, hs) =
      rw (holds-append t r ps qs h, all-holds-append ts r ps qs hs)

  -- Its placeholders are those of its parameters.
  abbrev pub WellNumbered : Statement → Type 0
  WellNumbered s = All (Fits (length s.params)) s.terms

  abbrev extend : Statement → Term → List Param → Statement
  extend s t qs = record s { terms = s.terms ++ t ∷ []; params = s.params ++ qs }

  extend-satisfied :
      (s : Statement) (t : Term) (qs : List Param) (r : EventRow)
      → WellNumbered s
      → satisfied (extend s t qs) r ≡ (satisfied s r && holds like text_before (s.params ++ qs) r t)
  extend-satisfied s t qs r h =
      rw
        (
          all-append (holds like text_before (s.params ++ qs) r) s.terms (t ∷ []),
          all-holds-append s.terms r s.params qs h,
        )
        (ground arith)

  extend-WellNumbered :
      (s : Statement) (t : Term) (qs : List Param)
      → WellNumbered s
      → Fits (length (s.params ++ qs)) t
      → WellNumbered (extend s t qs)
  extend-WellNumbered s t qs h fits =
      All-snoc (Fits (length (s.params ++ qs))) s.terms t
        (All-Fits-mono s.terms (omega (arith, length-append s.params qs)) h) fits

  -- The statement is well numbered, and its clause holds of exactly the rows of `p`.
  pub record Means (s : Statement) (p : EventRow → Bool) : Type 0 where
    pub numbered : WellNumbered s
    pub means : (r : EventRow) → satisfied s r ≡ p r

  -- An optional term on the next placeholder, whose meaning on a value is `test`.
  pub with_term-Means {ℓ} :
      {A : Type ℓ} (t : ℕ → Term) (test : EventRow → String → Bool) (g : A → String) (o : Option A)
      (s : Statement) (p : EventRow → Bool)
      → ((i n : ℕ) → i ≤ n → Fits n (t i))
      → ((r : EventRow) (i : ℕ) (v : String) (ps : List Param)
          → text_at i ps ≡ some v
          → holds like text_before ps r (t i) ≡ test r v)
      → Means s p
      → Means (with_term t (Option.map g o) s) (λ r. p r && optional o (λ a. test r (g a)))
  unfolding with_term
  with_term-Means t test g none s p fits reads m = record {
    numbered = m.numbered;
    means = λ r. ground (arith, m.means r);
  }
  with_term-Means t test g (some a) s p fits reads m =
      let v = g a in
      let i = length s.params + 1 in
      let qs = Param.text v ∷ [] in
      record {
        numbered =
            extend-WellNumbered s (t i) qs m.numbered
              (fits i (length (s.params ++ qs)) (omega (arith, length-append s.params qs)));
        means = λ r.
            extend-satisfied s (t i) qs r m.numbered
            ∙ ap (λ b. b && holds like text_before (s.params ++ qs) r (t i)) (m.means r)
            ∙ ap (◌&&◌ (p r))
                (reads r i v (s.params ++ qs) (text_at-next i v s.params [] (omega arith)));
      }

  -- More parameters change nothing.
  more_params :
      (s s' : Statement) (qs : List Param) (p : EventRow → Bool)
      → s'.terms ≡ s.terms
      → s'.params ≡ s.params ++ qs
      → Means s p
      → Means s' p
  more_params s s' qs p same more m =
      let longer = length-append s.params qs in
      record {
        numbered = rw (same, more) (All-Fits-mono s.terms (omega (arith, longer)) m.numbered);
        means =
            λ r. rw (same, more) (all-holds-append s.terms r s.params qs m.numbered ∙ m.means r);
      }

  pub with_limit-Means :
      (o : Option ℕ) (s : Statement) (p : EventRow → Bool) → Means s p → Means (with_limit o s) p
  unfolding with_limit
  with_limit-Means none s p m = m
  with_limit-Means (some n) s p m =
      let qs = Param.integer (u64 n) ∷ [] in
      more_params s (record s { limit = some (length s.params + 1); params = s.params ++ qs }) qs p
        refl refl m

  pub with_offset-Means :
      (o : Option ℕ) (s : Statement) (p : EventRow → Bool) → Means s p → Means (with_offset o s) p
  unfolding with_offset
  with_offset-Means none s p m = m
  with_offset-Means (some n) s p m =
      let qs = Param.integer (u64 n) ∷ [] in
      more_params s (record s { offset = some (length s.params + 1); params = s.params ++ qs }) qs p
        refl refl m
