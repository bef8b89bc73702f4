-- ===== src/Context/Names/RoundTrip.antt =====
-- Printing a status word and reading it back.
use cpp_decimal.Base.{
  ℕ, ◌≡◌, ◌≢◌, ◌⊎◌, ◌<◌, ◌^◌, refl, none, some, arith, suc, zero, Bool, inl, inr, ◌==◌, zero-bit_or,
}
use cpp_decimal.Context.{DecContext, set_status_quiet, zero_status}
use cpp_decimal.Context.Names.{status_name, status_to_string, match_name, NameMatch}
use cpp_decimal.Context.Names.{set_status_from_string, set_status_from_string_quiet}

-- A status word of at most one condition; they have the bits 0 to 13.
abbrev pub IsSimple : ℕ → Type 0
IsSimple status = (status ≡ 0) ⊎ ((k : ℕ) × (k < 14) × (status ≡ 2 ^ k))

match_single : (k : ℕ) → k < 14 → match_name (status_name (2 ^ k)) ≡ NameMatch.condition (2 ^ k)
unfolding status_name match_name
match_single zero h = refl
match_single (suc zero) h = refl
match_single (suc (suc zero)) h = refl
match_single (suc (suc (suc zero))) h = refl
match_single (suc (suc (suc (suc zero)))) h = refl
match_single (suc (suc (suc (suc (suc zero))))) h = refl
match_single (suc (suc (suc (suc (suc (suc zero)))))) h = refl
match_single (suc (suc (suc (suc (suc (suc (suc zero))))))) h = refl
match_single (suc (suc (suc (suc (suc (suc (suc (suc zero)))))))) h = refl
match_single (suc (suc (suc (suc (suc (suc (suc (suc (suc zero))))))))) h = refl
match_single (suc (suc (suc (suc (suc (suc (suc (suc (suc (suc zero)))))))))) h = refl
match_single (suc (suc (suc (suc (suc (suc (suc (suc (suc (suc (suc zero))))))))))) h = refl
match_single (suc (suc (suc (suc (suc (suc (suc (suc (suc (suc (suc (suc zero)))))))))))) h = refl
match_single (suc (suc (suc (suc (suc (suc (suc (suc (suc (suc (suc (suc (suc zero))))))))))))) h =
    refl
match_single (suc (suc (suc (suc (suc (suc (suc (suc (suc (suc (suc (suc (suc (suc k))))))))))))))
      h =
    absurd (omega arith)

match_zero : match_name (status_name 0) ≡ NameMatch.no_status
unfolding status_name match_name
match_zero = refl

eq-false : (a b : ℕ) → a ≢ b → (a == b) ≡ Bool.false
eq-false a b h = ground arith

module _ (s : ℕ) (several : IsSimple s → ⊥) where
  differs : (k : ℕ) → k < 14 → (s == 2 ^ k) ≡ Bool.false
  differs k h = eq-false s (2 ^ k) (λ e. several (inr (k, h, e)))

  name_several : status_name s ≡ "Multiple status"
  unfolding status_name
  name_several =
      rw
        (
          differs 7 (omega arith),
          differs 1 (omega arith),
          differs 9 (omega arith),
          differs 13 (omega arith),
          differs 5 (omega arith),
          differs 2 (omega arith),
          differs 3 (omega arith),
          differs 11 (omega arith),
          differs 10 (omega arith),
          differs 12 (omega arith),
          differs 0 (omega arith),
          differs 4 (omega arith),
          differs 6 (omega arith),
          differs 8 (omega arith),
          eq-false s 0 (λ e. several (inl e)),
        )
        refl

  match_several : match_name (status_name s) ≡ NameMatch.unknown
  unfolding match_name
  match_several = rw name_several

-- A status word of at most one condition comes back: its name, read into a context whose status is
-- clear, gives that context with the word for its status.
pub set_status_from_string_quiet-status_to_string :
    (c d : DecContext)
    → IsSimple c.status
    → set_status_from_string_quiet (zero_status d) (status_to_string c)
      ≡ some (record d { status = c.status })
unfolding set_status_from_string_quiet status_to_string set_status_quiet zero_status
set_status_from_string_quiet-status_to_string c d (inl e) =
    rw (e, match_zero, set_status_from_string_quiet)
set_status_from_string_quiet-status_to_string c d (inr (k, h, e)) =
    rw (e, match_single k h, set_status_from_string_quiet, zero-bit_or)

-- The name of a word of several conditions is refused: both functions that read it return NULL.
pub set_status_from_string-several :
    (c d : DecContext)
    → (IsSimple c.status → ⊥)
    → (set_status_from_string d (status_to_string c) ≡ none)
      × (set_status_from_string_quiet d (status_to_string c) ≡ none)
unfolding set_status_from_string set_status_from_string_quiet status_to_string
set_status_from_string-several c d several = (
  rw (match_several c.status several, set_status_from_string),
  rw (match_several c.status several, set_status_from_string_quiet),
)
