-- ===== src/Tests/Connections.antt =====
-- A connection (policyd_py/core/server.py) at work.
use policyd_py.Base.{ℕ, ◌+◌, ◌≡◌, refl, List, [], ◌∷◌, Text, codes, returned, Eff}
use policyd_py.Base.Dict.{Dict}
use policyd_py.Models.{PolicyRequest, PolicyResponse, create_defer, or_empty}
use policyd_py.Server.{serve}
use policyd_py.Server.Framing.{IsAttribute, all_lines, Answers, serve-Answers}

-- The state counts the requests.
abbrev echo : PolicyRequest → Eff ℕ PolicyResponse
echo req n = (returned (create_defer (or_empty req.sender)), n + 1)

abbrev first_request : Dict Text
first_request = (codes "sender", codes "a=b@c.de") ∷ (codes "recipient", codes "d@e.fr") ∷ []

abbrev next_request : Dict Text
next_request = (codes "recipient", codes "d@e.fr") ∷ []

sender-IsAttribute : IsAttribute (codes "sender", codes "a=b@c.de")
unfolding policyd_py.Base.strip_start policyd_py.Base.is_space
sender-IsAttribute = record {
  free = (refl, (refl, (refl, (refl, (refl, (refl, tt))))));
  trimmed_name = refl;
  trimmed_value = refl;
  trimmed = refl;
}

recipient-IsAttribute : IsAttribute (codes "recipient", codes "d@e.fr")
unfolding policyd_py.Base.strip_start policyd_py.Base.is_space
recipient-IsAttribute = record {
  free = (refl, (refl, (refl, (refl, (refl, (refl, (refl, (refl, (refl, tt)))))))));
  trimmed_name = refl;
  trimmed_value = refl;
  trimmed = refl;
}

serve-Answers_example :
    Answers echo
      (first_request ∷ next_request ∷ [])
      0
      (serve echo (all_lines (first_request ∷ next_request ∷ [])) [] 0).0
      (serve echo (all_lines (first_request ∷ next_request ∷ [])) [] 0).1
serve-Answers_example = serve-Answers echo (first_request ∷ next_request ∷ []) 0 (
  ((sender-IsAttribute, (recipient-IsAttribute, tt)), (λ e. cc)),
  (((recipient-IsAttribute, tt), (λ e. cc)), tt),
)
