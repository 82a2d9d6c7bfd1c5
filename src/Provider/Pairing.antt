-- ===== src/Provider/Pairing.antt =====
-- The rule of the vendors' APIs on a history: the message after one that holds tool_use blocks, and
-- no other, answers them, with a tool_result for each id and for no other.
use workhorse_agent.Prelude.{◌≡◌, refl, ◌∙◌, Bool, List, [], ◌∷◌, ◌++◌, Text, text_eq, any, arith}
use workhorse_agent.Provider.Message.{ContentBlock, text, tool_use, tool_result, reasoning, Message}

abbrev use_ids : ContentBlock → List Text
use_ids (tool_use id name input) = id ∷ []
use_ids (text t) = []
use_ids (tool_result id output e) = []
use_ids (reasoning r) = []

abbrev result_ids : ContentBlock → List Text
result_ids (tool_result id output e) = id ∷ []
result_ids (text t) = []
result_ids (tool_use id name input) = []
result_ids (reasoning r) = []

unfoldable pub uses : List ContentBlock → List Text
uses [] = []
uses (b ∷ bs) = use_ids b ++ uses bs

unfoldable pub results : List ContentBlock → List Text
results [] = []
results (b ∷ bs) = result_ids b ++ results bs

unfoldable pub has : List Text → Text → Bool
has xs j = any (text_eq j) xs

-- The same ids, order and repetition aside.
abbrev pub SameIds : List Text → List Text → Type 0
SameIds xs ys = (j : Text) → has xs j ≡ has ys j

-- From ids that are owed, the messages answer, and leave the last ids owed.
unfoldable pub Follows : List Text → List Message → List Text → Type 0
Follows owed [] left = SameIds owed left
Follows owed (m ∷ ms) left = SameIds owed (results m.content) × Follows (uses m.content) ms left

unfoldable pub Paired : List Message → Type 0
Paired ms = Follows [] ms []

pub Follows-snoc :
    (owed : List Text) (ms : List Message) (left : List Text) (m : Message)
    → Follows owed ms left
    → SameIds left (results m.content)
    → Follows owed (ms ++ m ∷ []) (uses m.content)
unfolding Follows
Follows-snoc owed [] left m h g = ((λ j. h j ∙ g j), (λ j. refl))
Follows-snoc owed (x ∷ xs) left m h g = (h.0, Follows-snoc (uses x.content) xs left m h.1 g)

pub Follows-left :
    (owed : List Text) (ms : List Message) (left right : List Text)
    → Follows owed ms left
    → SameIds left right
    → Follows owed ms right
unfolding Follows
Follows-left owed [] left right h g = λ j. h j ∙ g j
Follows-left owed (x ∷ xs) left right h g = (h.0, Follows-left (uses x.content) xs left right h.1 g)

pub uses-append : (bs cs : List ContentBlock) → uses (bs ++ cs) ≡ uses bs ++ uses cs
unfolding uses
uses-append [] cs = refl
uses-append (text t ∷ bs) cs = uses-append bs cs
uses-append (tool_use id name input ∷ bs) cs = ground (arith, uses-append bs cs)
uses-append (tool_result id output e ∷ bs) cs = uses-append bs cs
uses-append (reasoning r ∷ bs) cs = uses-append bs cs

pub results-append : (bs cs : List ContentBlock) → results (bs ++ cs) ≡ results bs ++ results cs
unfolding results
results-append [] cs = refl
results-append (text t ∷ bs) cs = results-append bs cs
results-append (tool_result id output e ∷ bs) cs = ground (arith, results-append bs cs)
results-append (tool_use id name input ∷ bs) cs = results-append bs cs
results-append (reasoning r ∷ bs) cs = results-append bs cs
