-- ===== src/Session/History.antt =====
-- The history and the pending tool uses of internal/session/session.go, in memory: the rows that
-- AppendMessage and ReplaceHistory write too are left out, their failures are logged only.
pub mod Pending
use workhorse_agent.Prelude.{List, [], ◌∷◌, ◌++◌, Text, Dict, insert, delete}
use workhorse_agent.Provider.Message.{Message}
use workhorse_agent.Session.State.{State}

pub record PendingToolUse : Type 0 where
  pub id : Text
  pub name : Text
  pub input : Text

pub record Session : Type 0 where
  pub state : State
  pub title : Text
  pub history : List Message
  pub pending : Dict PendingToolUse

unfoldable pub append_message : Session → Message → Session
append_message s m = record s { history = s.history ++ m ∷ [] }

unfoldable pub replace_history : Session → List Message → Session
replace_history s ms = record s { history = ms }

unfoldable pub mark_tool_use_pending : Session → PendingToolUse → Session
mark_tool_use_pending s p = record s { pending = insert p.id p s.pending }

unfoldable pub clear_tool_use_pending : Session → Text → Session
clear_tool_use_pending s id = record s { pending = delete id s.pending }

-- The entries, which the code ranges over in no fixed order.
unfoldable pub entries : Dict PendingToolUse → List PendingToolUse
entries [] = []
entries ((k, p) ∷ ps) = p ∷ entries ps

unfoldable pub drain_pending_tool_uses : Session → List PendingToolUse × Session
unfolding entries
drain_pending_tool_uses s = (entries s.pending, record s { pending = [] })
