-- ===== src/Tools/Truncate.antt =====
-- internal/tools/truncate.go. `ends_clean` is utf8.DecodeLastRuneInString's verdict that a text
-- does not end in a broken encoding, `decimal` the `%d` of fmt.
pub mod Bounds
use workhorse_agent.Prelude.{
  ℕ, zero, suc, ◌-◌, Bool, true, false, ◌++◌, ◌||◌, ◌==◌, Text, codes, leb, length, take,
  if◌then◌else◌,
}

module _ (ends_clean : Text → Bool) (decimal : ℕ → Text) where
  unfoldable pub walk_back : ℕ → Text → ℕ
  walk_back zero s = zero
  walk_back (suc n) s = elim (ends_clean (take (suc n) s)) [ true ↦ suc n | false ↦ walk_back n s ]

  unfoldable pub marker : ℕ → ℕ → Text
  marker kept of =
      codes "\n[truncated: kept " ++ decimal kept ++ codes " bytes of " ++ decimal of ++ codes "]"

  unfoldable pub cut_at : ℕ → Text → Text
  cut_at kept s = take kept s ++ marker kept (length s)

  -- The cut moves once more where the marker does not fit the budget.
  unfoldable pub fit : ℕ → ℕ → Text → Text
  fit max kept s =
      if leb (length (cut_at kept s)) max
      then cut_at kept s
      else cut_at (walk_back (kept - (length (cut_at kept s) - max)) s) s

  unfoldable pub truncate_output : ℕ → Text → Text × Bool
  truncate_output max s =
      if (max == 0) || leb (length s) max
      then (s, false)
      else (fit max (walk_back (max - 80) s) s, true)
