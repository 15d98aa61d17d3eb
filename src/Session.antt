-- ===== src/Session.antt =====
-- back/go-assistant/cpn/session.go: a user's session, which hands the answers of people to the
-- transitions that wait for them. A registered Go channel is an `Inbox`: its buffer, and how many
-- receivers wait on it, who make room beyond the buffer's capacity. The stream of chunks, which only
-- the adapters use, is left out. Each method is one critical section of the session's mutex, except
-- that `ResolveHITL` sends after it has read the map.
pub mod Delivery
use liwaisi_assistant.Base.{
  ℕ, ℤ, String, Bool, true, false, not, ◌&&◌, ◌+◌, Option, none, some, List, [], ◌∷◌, ◌++◌, Dict,
  lookup, insert, delete, has, length, ltb, if◌then◌else◌, Result, ok, err,
}
use liwaisi_assistant.Errors.{
  Error, no_hitl_waiting, already_registered, nil_root, not_in_root, not_hitl, canceled,
}
use liwaisi_assistant.Token.{
  Token, ColorSet, human, NodeKind, hitl, is_hitl, surface, HitlResponse, response,
}
use liwaisi_assistant.Transition.{Transition}
use liwaisi_assistant.Net.{Cpn, Message}

pub data ChannelType : Type 0 where
  web whatsapp telegram : ChannelType

pub record Inbox : Type 0 where
  pub capacity : ℕ
  pub waiting : ℕ
  pub queue : List Token

pub record Session : Type 0 where
  pub id : String
  pub user_id : String
  pub channel : ChannelType
  pub root : Option Cpn
  pub hitl_inject : Dict Inbox
  pub history : List Message
  pub created_at : ℕ

unfoldable pub new_session : ℕ → (id user_id : String) → ChannelType → Option Cpn → Session
new_session now id user_id channel root = record {
  id = id;
  user_id = user_id;
  channel = channel;
  root = root;
  hitl_inject = [];
  history = [];
  created_at = now;
}

-- The part that both registrations share.
unfoldable pub register_tool_hitl : (transition : String) → Inbox → Session → Result Error Session
register_tool_hitl tid ch s =
    if has tid s.hitl_inject
    then err (already_registered tid)
    else ok (record s { hitl_inject = insert tid ch s.hitl_inject })

unfoldable pub register_hitl : (transition : String) → Inbox → Session → Result Error Session
register_hitl tid ch s = elim s.root [
  | none ↦ err (nil_root tid)
  | some root ↦ elim (lookup tid root.transitions) [
    | none ↦ err (not_in_root tid)
    | some t ↦
        let registered = register_tool_hitl tid ch s in
        if is_hitl t.kind then registered else err (not_hitl tid)
  ]
]

unfoldable pub unregister_hitl : (transition : String) → Session → Session
unregister_hitl tid s = record s { hitl_inject = delete tid s.hitl_inject }

unfoldable pub has_room : Inbox → Bool
has_room ch = ltb (length ch.queue) (ch.capacity + ch.waiting)

unfoldable pub human_token : ℕ → HitlResponse → Session → Token
human_token now resp s = record {
  color = human;
  payload = response resp;
  origin_id = "human";
  origin_depth = ℤ.negsuc 0;
  origin_kind = hitl;
  space = surface;
  session_id = s.id;
  trace_id = "";
  timestamp = now;
}

unfoldable pub delivered_to : (transition : String) → Token → Inbox → Session → Session
delivered_to tid t ch s = record s {
  hitl_inject = insert tid (record ch { queue = ch.queue ++ t ∷ [] }) s.hitl_inject;
}

-- `ResolveHITL`: `none` where it goes on waiting, with the context not done and no room. Where both
-- cases of the `select` are ready, `sends` says which one Go takes.
unfoldable pub resolve_hitl :
    ℕ
    → (done sends : Bool) → (transition : String) → HitlResponse
    → Session
    → Option (Result Error Session)
resolve_hitl now done sends tid resp s = elim (lookup tid s.hitl_inject) [
  | none ↦ some (err (no_hitl_waiting tid))
  | some ch ↦
      if has_room ch
      then if done && not sends
        then some (err (canceled tid))
        else some (ok (delivered_to tid (human_token now resp s) ch s))
      else if done
      then some (err (canceled tid))
      else none
]

unfoldable pub append_message : Message → Session → Session
append_message msg s = record s { history = s.history ++ msg ∷ [] }

-- `Messages`: a copy, and nil for an empty history.
unfoldable pub messages : Session → List Message
messages s = s.history
