-- ===== src/Server.antt =====
-- policyd_py/core/server.py: the connections of Postfix. A connection is the list of the lines that arrive
-- before its end; a read or a write that takes too long ends it as its end would, and is not in the model.
pub mod Framing
use policyd_py.Base.{
  Bool, Option, none, some, List, [], ◌∷◌, is_empty, if◌then◌else◌, Text, strip, split_once,
  Outcome, returned, raised, Eff,
}
use policyd_py.Base.Dict.{Dict, put}
use policyd_py.Models.{PolicyRequest, PolicyResponse, parse_from_dict, format}
use policyd_py.Stats.{RuntimeStats, inc_active_connections, dec_active_connections}

-- `data_dict[...] = ...` of a line that has an equals sign; other lines are ignored.
unfoldable pub add_pair : Text × Option Text → Dict Text → Dict Text
add_pair (key, none) d = d
add_pair (key, some value) d = put d (strip key) (strip value)

module _ {S : Type 0} (handle : PolicyRequest → Eff S PolicyResponse) where
  -- What follows the answer: its text is written, and the next request is read; an exception ends the
  -- connection.
  unfoldable pub after_answer : (S → List Text × S) → Outcome PolicyResponse × S → List Text × S
  after_answer next (returned response, s) =
      let (written, s') = next s in (format response ∷ written, s')
  after_answer next (raised exc, s) = ([], s)

  -- The loop of `_handle_client`, with the request that has been read so far: what is written, and the
  -- state that is left.
  unfoldable pub serve : List Text → Dict Text → S → List Text × S
  unfolding add_pair after_answer
  serve [] d s = ([], s)
  serve (line ∷ lines) d s =
      let skipped = serve lines (add_pair (split_once b'=' (strip line)) d) s in
      let answered = after_answer (serve lines []) (handle (parse_from_dict d) s) in
      if is_empty (strip line) then (if is_empty d then ([], s) else answered) else skipped

-- `_handle_client`: the counter of the connections around the loop.
unfoldable pub handle_client :
    {S : Type 0}
    → ((RuntimeStats → RuntimeStats) → S → S)
    → (PolicyRequest → Eff S PolicyResponse)
    → List Text
    → S
    → List Text × S
unfolding serve
handle_client on_stats handle lines s =
    let (written, s') = serve handle lines [] (on_stats inc_active_connections s) in
    (written, on_stats dec_active_connections s')
