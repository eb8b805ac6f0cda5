-- ===== src/Server/Framing.antt =====
-- Requests as policyd_py/core/server.py reads them off a connection.
use policyd_py.Base.{
  ◌≡◌, ◌≢◌, refl, subst, Exception, Bool-cases, text_eq, ◌∙◌, sym, inl, inr, Bool, true, false,
  Option, none, some, List, [], ◌∷◌, ◌++◌, All, IsFree, split_once-append, is_empty, if◌then◌else◌,
  Text, strip, split_once, Outcome, returned, raised, Eff,
}
use policyd_py.Base.Dict.{Dict, put}
use policyd_py.Models.{PolicyRequest, PolicyResponse, parse_from_dict, format}
use policyd_py.Server.{add_pair, after_answer, serve}

-- An attribute that Postfix sends as a line `name=value`, without white space around name and value.
pub record IsAttribute (a : Text × Text) : Type 0 where
  pub free : IsFree b'=' a.0
  pub trimmed_name : strip a.0 ≡ a.0
  pub trimmed_value : strip a.1 ≡ a.1
  pub trimmed : strip (a.0 ++ b'=' ∷ a.1) ≡ a.0 ++ b'=' ∷ a.1

abbrev pub line_of : Text × Text → Text
line_of (name, value) = name ++ b'=' ∷ value

-- The lines of a request: its attributes and an empty line.
abbrev pub lines_of : Dict Text → List Text → List Text
lines_of [] rest = [] ∷ rest
lines_of (a ∷ request) rest = line_of a ∷ lines_of request rest

abbrev pub all_lines : List (Dict Text) → List Text
all_lines [] = []
all_lines (request ∷ requests) = lines_of request (all_lines requests)

-- The dictionary of the attributes; of two with one name the later counts.
abbrev pub dict_from : Dict Text → Dict Text → Dict Text
dict_from d [] = d
dict_from d ((name, value) ∷ request) = dict_from (put d name value) request

abbrev pub IsRequest : Dict Text → Type 0
IsRequest request = All IsAttribute request × (request ≢ [])

line-not_empty : (name value : Text) → is_empty (name ++ b'=' ∷ value) ≡ false
line-not_empty [] value = refl
line-not_empty (c ∷ name) value = refl

put-not_empty : (d : Dict Text) (k v : Text) → is_empty (put d k v) ≡ false
unfolding put
put-not_empty [] k v = refl
put-not_empty ((j, w) ∷ d) k v = elim (Bool-cases (text_eq j k)) [
  | inl same ↦ rw same refl
  | inr other ↦ rw other refl
]

dict_from-not_empty :
    (d : Dict Text) (request : Dict Text)
    → is_empty d ≡ false
    → is_empty (dict_from d request) ≡ false
dict_from-not_empty d [] h = h
dict_from-not_empty d ((k, v) ∷ request) h =
    dict_from-not_empty (put d k v) request (put-not_empty d k v)

module _ {S : Type 0} (handle : PolicyRequest → Eff S PolicyResponse) where
  -- The requests in turn, each in the state that the one before has left: the reply to each is written, and
  -- one that raises is the last.
  pub data Answers : List (Dict Text) → S → List Text → S → Type 0 where
    finished : (s : S) → Answers [] s [] s
    answered :
        (request : Dict Text) (requests : List (Dict Text)) (s s' s'' : S)
        (response : PolicyResponse) (written : List Text)
        → handle (parse_from_dict (dict_from [] request)) s ≡ (returned response, s')
        → Answers requests s' written s''
        → Answers (request ∷ requests) s (format response ∷ written) s''
    broken :
        (request : Dict Text) (requests : List (Dict Text)) (s s' : S) (exc : Exception)
        → handle (parse_from_dict (dict_from [] request)) s ≡ (raised exc, s')
        → Answers (request ∷ requests) s [] s'

  serve-attribute :
      (a : Text × Text) (lines : List Text) (d : Dict Text) (s : S)
      → IsAttribute a
      → serve handle (line_of a ∷ lines) d s ≡ serve handle lines (put d a.0 a.1) s
  unfolding serve add_pair
  serve-attribute (name, value) lines d s h =
      rw
        (
          h.trimmed,
          line-not_empty name value,
          split_once-append b'=' name value h.free,
          h.trimmed_name,
          h.trimmed_value,
        )
        refl

  serve-attributes :
      (request : Dict Text) (rest : List Text) (d : Dict Text) (s : S)
      → All IsAttribute request
      → serve handle (lines_of request rest) d s ≡ serve handle ([] ∷ rest) (dict_from d request) s
  serve-attributes [] rest d s h = refl
  serve-attributes ((name, value) ∷ request) rest d s (a, h) =
      serve-attribute (name, value) (lines_of request rest) d s a
      ∙ serve-attributes request rest (put d name value) s h

  after_answer-Answers :
      (request : Dict Text) (requests : List (Dict Text)) (s : S) (next : S → List Text × S)
      (r : Outcome PolicyResponse × S)
      → handle (parse_from_dict (dict_from [] request)) s ≡ r
      → ((s' : S) → Answers requests s' (next s').0 (next s').1)
      → Answers (request ∷ requests) s (after_answer handle next r).0 (after_answer handle next r).1
  unfolding after_answer
  after_answer-Answers request requests s next (returned response, s') h k =
      answered request requests s s' (next s').1 response (next s').0 h (k s')
  after_answer-Answers request requests s next (raised exc, s') h k =
      broken request requests s s' exc h

  serve-blank :
      (rest : List Text) (d : Dict Text) (s : S)
      → is_empty d ≡ false
      → serve handle ([] ∷ rest) d s
        ≡ after_answer handle (serve handle rest []) (handle (parse_from_dict d) s)
  unfolding serve policyd_py.Base.strip_start
  serve-blank rest d s h = rw h refl

  dict-not_empty : (request : Dict Text) → request ≢ [] → is_empty (dict_from [] request) ≡ false
  dict-not_empty [] h = absurd (h refl)
  dict-not_empty ((k, v) ∷ request) h =
      dict_from-not_empty (put [] k v) request (put-not_empty [] k v)

  -- Whatever the handler does: if any number of requests arrive one after the other on a connection, each
  -- as the lines `name=value` of its attributes and an empty line, the handler gets each of them, in
  -- order and with exactly these attributes, and what is written is one reply for each, up to the
  -- request in whose handling an exception ends the connection.
  pub serve-Answers :
      (requests : List (Dict Text)) (s : S)
      → All IsRequest requests
      → Answers requests s
          (serve handle (all_lines requests) [] s).0
          (serve handle (all_lines requests) [] s).1
  unfolding serve
  serve-Answers [] s h = finished s
  serve-Answers (request ∷ requests) s ((attributes, some_attribute), h) =
      let same =
        serve-attributes request (all_lines requests) [] s attributes
        ∙ serve-blank (all_lines requests) (dict_from [] request) s
            (dict-not_empty request some_attribute) in
      subst (λ p. Answers (request ∷ requests) s p.0 p.1) (sym same)
        (after_answer-Answers request requests s (serve handle (all_lines requests) [])
          (handle (parse_from_dict (dict_from [] request)) s) refl
          (λ s'. serve-Answers requests s' h))
