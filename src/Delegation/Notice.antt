-- ===== src/Delegation/Notice.antt =====
-- renderNotice, deriveTitle, deriveSummary and capRunes of internal/delegation/manager.go.
-- strings.TrimSpace, strings.Fields and the conversions with []rune are arguments.
use workhorse_agent.Prelude.{
  ℕ, ◌-◌, Bool, true, false, List, [], ◌∷◌, ◌++◌, Text, codes, is_empty, length, take, leb, ◌==◌,
  if◌then◌else◌,
}
use workhorse_agent.Delegation.Rows.{Delegation, failed, running, complete}

abbrev pub is_error : Delegation → Bool
is_error d = elim d.status [ failed ↦ true | running ↦ false | complete ↦ false ]

abbrev headline : Bool → Text
headline true = codes "[Background research delegation failed] "
headline false = codes "[Background research delegation completed] "

abbrev outcome : Delegation → Text
outcome d =
    if is_error d
    then codes "The task did not finish successfully"
      ++ (if is_empty d.error then [] else codes ": " ++ d.error)
      ++ codes "."
    else if is_empty d.summary
    then codes "The full result is ready."
    else d.summary

-- The dash and the ellipsis are their UTF-8 bytes.
unfoldable pub render_notice : Delegation → Text
render_notice d =
    headline (is_error d)
    ++ d.id
    ++ (if is_empty d.title then [] else (32 ∷ 226 ∷ 128 ∷ 148 ∷ 32 ∷ []) ++ d.title)
    ++ (10 ∷ [])
    ++ outcome d
    ++ (10 ∷ codes "Call delegation_read(\"")
    ++ d.id
    ++ codes "\") to retrieve the full result."

unfoldable pub join : List Text → Text
join [] = []
join (w ∷ []) = w
join (w ∷ v ∷ ws) = w ++ (32 ∷ join (v ∷ ws))

unfoldable pub first_line : Text → Text
first_line [] = []
first_line (c ∷ cs) = let rest = first_line cs in if c == 10 then [] else c ∷ rest

module _ (trim : Text → Text) (fields : Text → List Text) (runes : Text → List ℕ)
    (text_of : List ℕ → Text) where
  unfoldable pub cap_runes : Text → ℕ → Text
  cap_runes s max =
      if leb max 0
      then []
      else if leb (length (runes s)) max
      then s
      else text_of (take (max - 1) (runes s)) ++ (226 ∷ 128 ∷ 166 ∷ [])

  unfoldable pub derive_title : Text → Text
  derive_title result =
      if is_empty (trim result) then [] else cap_runes (first_line (trim result)) 48

  unfoldable pub derive_summary : Text → Text
  derive_summary result = cap_runes (join (fields result)) 180
