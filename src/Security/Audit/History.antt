-- ===== src/Security/Audit/History.antt =====
-- The audit log against the whole history of what was recorded.
use mathlib.Core.List.{append-nil, append_assoc}
use tiny_mite.Security.Audit.{
  AuditLog, new_log, record_entry, record_entries, remove_first, make_room,
}
use tiny_mite.Prelude.{
  ℕ, zero, suc, ◌+◌, ◌-◌, ◌≤◌, ◌<◌, ◌≡◌, refl, sym, ap, ◌∙◌, inl, inr, some, List, [], ◌∷◌, ◌++◌,
  arith, length, leb, drop, length-append, length-drop, drop-append, Bool-cases, leb→le,
  lt_of_leb-eq-false,
}

drop_one {ℓ} :
    {E : Type ℓ} (n : ℕ) (xs : List E)
    → n < length xs
    → remove_first (drop n xs) ≡ some (drop (suc n) xs)
drop_one n [] h = absurd (omega arith)
drop_one zero (x ∷ xs) h = refl
drop_one (suc n) (x ∷ xs) h = drop_one n xs (omega arith)

-- The last `max` entries of a history.
abbrev pub last_entries {ℓ} : {E : Type ℓ} → ℕ → List E → List E
last_entries max h = drop (length h - max) h

module _ {ℓ} {E : Type ℓ} (max : ℕ) (positive : 0 < max) where
  abbrev view : List E → AuditLog E
  view h = record { entries = last_entries max h; max_entries = max }

  make_room-last_entries :
      (h : List E) → make_room max (last_entries max h) ≡ some (drop (length h + 1 - max) h)
  make_room-last_entries h = elim (Bool-cases (leb max (length (last_entries max h)))) [
    | inl full ↦
        let long : max ≤ length h =
          omega (arith, leb→le _ _ full, length-drop (length h - max) h) in
        let next : suc (length h - max) ≡ length h + 1 - max = omega arith in
        rw full (drop_one (length h - max) h (omega arith) ∙ ap (λ n. some (drop n h)) next)
    | inr room ↦
        let short : length h - max ≡ length h + 1 - max =
          omega (arith, lt_of_leb-eq-false _ _ room, length-drop (length h - max) h) in
        rw room (ap (λ n. some (drop n h)) short)
  ]

  record_entry-view : (h : List E) (e : E) → record_entry (view h) e ≡ some (view (h ++ e ∷ []))
  unfolding record_entry
  record_entry-view h e =
      rw (make_room-last_entries h, record_entry)
        (ap (λ es. some (record { entries = es; max_entries = max })) tail)
    where
      next : length h + 1 - max ≡ length (h ++ e ∷ []) - max
      next = omega (arith, length-append h (e ∷ []))

      tail : drop (length h + 1 - max) h ++ e ∷ [] ≡ last_entries max (h ++ e ∷ [])
      tail =
          sym (drop-append (length h + 1 - max) h (e ∷ []) (omega arith))
          ∙ ap (λ n. drop n (h ++ e ∷ [])) next

  record_entries-view : (h es : List E) → record_entries (view h) es ≡ some (view (h ++ es))
  unfolding record_entries
  record_entries-view h [] = ap (λ k. some (view k)) (sym (append-nil h))
  record_entries-view h (e ∷ es) =
      rw (record_entry-view h e, record_entries)
        (record_entries-view (h ++ e ∷ []) es
          ∙ ap (λ k. some (view k)) (append_assoc h (e ∷ []) es))

  -- A log with room for at least one entry never panics, and after any records it holds exactly
  -- the last `max` of them, in the order in which they were recorded.
  pub record_entries-new_log :
      (es : List E)
      → record_entries (new_log max) es
        ≡ some (record { entries = last_entries max es; max_entries = max })
  unfolding new_log
  record_entries-new_log es =
      let none_yet : 0 - max ≡ 0 = omega arith in rw none_yet at (record_entries-view [] es)

-- Since the capacity bounds the view, a log never grows beyond it.
pub length-last_entries-le {ℓ} :
    {E : Type ℓ} (max : ℕ) (es : List E) → length (last_entries max es) ≤ max
length-last_entries-le max es = omega (arith, length-drop (length es - max) es)
