-- ===== src/Events/Store/Statement.antt =====
-- crates/tiny-mite-events/src/store.rs: the SELECT statements that `query` and `replay` put
-- together, with their numbered placeholders, and what their WHERE clause means.
pub mod Building
pub mod Meaning
use tiny_mite.Events.Store.{EventRow}
use tiny_mite.Prelude.{
  ℕ, zero, suc, Bool, true, false, not, ◌&&◌, ◌||◌, String, Option, some, none, List, [], ◌∷◌,
  ◌===◌, string_eq,
}

-- The values bound to the placeholders; an integer is its 64 bits.
pub data Param : Type 0 where
  text : String → Param
  integer : ℕ → Param

-- A term of the WHERE clause, with the numbers of its placeholders. The last one reads
-- `timestamp > ?i OR (timestamp = ?i AND id > ?j)`.
pub data Term : Type 0 where
  event_type_like correlation_is causation_is source_is at_or_after at_or_before : ℕ → Term
  after_event : ℕ → ℕ → Term

-- `ORDER BY timestamp ASC`, and `ORDER BY timestamp ASC, id ASC`.
pub data Order : Type 0 where
  by_time by_time_and_id : Order

-- The statement, with the placeholders of LIMIT and OFFSET.
pub record Statement : Type 0 where
  pub terms : List Term
  pub order : Order
  pub limit : Option ℕ
  pub offset : Option ℕ
  pub params : List Param

-- The text bound to a placeholder; they are numbered from 1.
abbrev pub text_at : ℕ → List Param → Option String
text_at _ [] = none
text_at zero (_ ∷ _) = none
text_at (suc zero) (Param.text s ∷ _) = some s
text_at (suc zero) (Param.integer _ ∷ _) = none
text_at (suc (suc n)) (_ ∷ ps) = text_at (suc n) ps

-- A comparison with a placeholder or a column that is NULL is not true.
abbrev pub compare_with : (String → String → Bool) → Option String → Option String → Bool
compare_with p (some a) (some b) = p a b
compare_with p _ _ = false

-- `LIKE` and the order of texts are those of SQLite: `like pattern text` and `text_before`.
module _ (like text_before : String → String → Bool) where
  -- The row comes after the event of the given timestamp and identifier.
  abbrev pub is_after : String → String → EventRow → Bool
  is_after at id r = text_before at r.timestamp || ((r.timestamp === at) && text_before id r.id)

  unfoldable pub holds : List Param → EventRow → Term → Bool
  holds ps r (Term.event_type_like i) = compare_with like (text_at i ps) (some r.event_type)
  holds ps r (Term.correlation_is i) = compare_with (λ p c. c === p) (text_at i ps) r.correlation_id
  holds ps r (Term.causation_is i) = compare_with (λ p c. c === p) (text_at i ps) r.causation_id
  holds ps r (Term.source_is i) = compare_with (λ p s. s === p) (text_at i ps) (some r.source)
  holds ps r (Term.at_or_after i) =
      compare_with (λ p t. not (text_before t p)) (text_at i ps) (some r.timestamp)
  holds ps r (Term.at_or_before i) =
      compare_with (λ p t. not (text_before p t)) (text_at i ps) (some r.timestamp)
  holds ps r (Term.after_event i j) =
      compare_with (λ at id. is_after at id r) (text_at i ps) (text_at j ps)
