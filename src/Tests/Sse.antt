-- ===== src/Tests/Sse.antt =====
-- Two events of a stream, one with a payload of two lines.
use workhorse_agent.Prelude.{◌≡◌, refl, [], ◌∷◌, map, codes}
use workhorse_agent.Provider.Sse.{parse_sse, ok, drop_cr}
use workhorse_agent.Provider.Sse.RoundTrip.{
  Sent, wire, wire_all, unlines, as_event, collect, lacks, parse_sse-wire,
}

abbrev start : Sent
start = record { kind = codes "start"; lines = (97 ∷ 98 ∷ []) ∷ (99 ∷ []) ∷ [] }

abbrev end : Sent
end = record { kind = codes "end"; lines = [] }

parse_sse-wire_example :
    parse_sse (λ t. t) collect (unlines (wire_all (start ∷ end ∷ []))) []
    ≡ (map as_event (start ∷ end ∷ []), ok)
unfolding wire lacks drop_cr codes
parse_sse-wire_example =
    parse_sse-wire (λ t. t) (start ∷ end ∷ [])
      (
        (
          (
            (refl, refl, refl),
            ((refl, refl, refl), ((refl, refl, refl), ((refl, refl, refl), tt))),
          ),
          refl,
          refl,
        ),
        ((((refl, refl, refl), ((refl, refl, refl), tt)), refl, refl), tt),
      )
