-- ===== src/Ws/Registry.antt =====
-- What the registry operations of connection_manager.py keep: the topics of a connection are its own.
use mathlib.Core.Path.{subst}
use chatspace.Prelude.{
  ==_iff, find-none-update_where_id, ℕ, ◌≡◌, refl, sym, Bool, true, false, none, some, List, [],
  ◌∷◌, ◌||◌, ◌==◌, ok, find, update_where, All, Distinct, All-append_one, All-delete_where,
  All-update_where, Distinct-delete_where, Distinct-update_where, arith, Bool-cases, inl, inr,
}
use chatspace.Db.{Db}
use chatspace.Messages.Send.{Topic, channel_topic, dm_pair_topic, user_topic, presence_topic}
use chatspace.Ws.{
  WsWorld, ConnectionState, CloseCode, Conversation, channel_conversation, dm_conversation,
  unregister, subscribe, unsubscribe, connection_at, with_topic, without_topic, disconnected,
  ServerFrame, is_subscribed, topic_eq, safe_send_json, safe_close, connected,
  authorize_conversation,
}

-- A channel, a conversation of the user's own, or the user's own topic.
abbrev pub is_own : ℕ → Topic → Bool
is_own u (channel_topic c) = true
is_own u (dm_pair_topic a b) = a == u || b == u
is_own u (user_topic v) = v == u
is_own u (presence_topic v) = false

abbrev pub HasOwn : ConnectionState → Type 0
HasOwn c = All (λ t. is_own c.user_id t ≡ true) c.subscribed_topics

abbrev pub same_connection : ConnectionState → ConnectionState → Bool
same_connection a b = b.connection_id == a.connection_id

-- Every connection has topics of its own only, and an id of its own.
abbrev pub OwnOnly : List ConnectionState → Type 0
OwnOnly cs = All HasOwn cs × Distinct same_connection cs

pub authorized_is_own :
    (db : Db) (conversation : Conversation) (u : ℕ) (topic : Topic)
    → authorize_conversation db conversation u ≡ ok topic
    → is_own u topic ≡ true
unfolding authorize_conversation
authorized_is_own db (channel_conversation c) u topic h = ground (arith, h)
authorized_is_own db (dm_conversation v) u topic h = ground (arith, h)

pub with_topic-HasOwn :
    (topic : Topic) (c : ConnectionState)
    → is_own c.user_id topic ≡ true
    → HasOwn c
    → HasOwn (with_topic topic c)
with_topic-HasOwn topic c own h = elim (Bool-cases (is_subscribed topic c)) [
  | inl e ↦ rw e h
  | inr e ↦ rw e (All-append_one (λ t. is_own c.user_id t ≡ true) topic c.subscribed_topics own h)
]

-- An UPDATE of one row by its key.
pub update_one :
    (i : ℕ) (f : ConnectionState → ConnectionState) (cs : List ConnectionState)
    (c : ConnectionState)
    → find (connection_at i) cs ≡ some c
    → Distinct same_connection cs
    → (HasOwn c → HasOwn (f c))
    → All HasOwn cs
    → All HasOwn (update_where (connection_at i) f cs)
unfolding find update_where
update_one i f [] c n d k h = tt
update_one i f (x ∷ xs) c n (dx, ds) k (hx, hs) = elim (Bool-cases (connection_at i x)) [
  | inr e ↦ rw e (hx, update_one i f xs c (ground (arith, n, e)) ds k hs)
  | inl e ↦
      let same : x ≡ c = ground (arith, n, e) in
      let none_left =
        subst (λ j. find (connection_at j) xs ≡ none) ((==_iff x.connection_id i).0 e) dx in
      rw (e, find-none-update_where_id (connection_at i) f xs none_left)
        (subst (λ y. HasOwn (f y)) (sym same) (k (subst HasOwn same hx)), hs)
]

pub subscribe-OwnOnly :
    (w : WsWorld) (i : ℕ) (topic : Topic) (c : ConnectionState)
    → find (connection_at i) w.connections ≡ some c
    → is_own c.user_id topic ≡ true
    → OwnOnly w.connections
    → OwnOnly (subscribe w i topic).connections
unfolding subscribe
subscribe-OwnOnly w i topic c n own (h, d) = (
  update_one i (with_topic topic) w.connections c n d (with_topic-HasOwn topic c own) h,
  Distinct-update_where same_connection (connection_at i) (with_topic topic) (λ _ _. refl)
      (λ _ _. refl) w.connections d,
)

pub unsubscribe-OwnOnly :
    (w : WsWorld) (i : ℕ) (topic : Topic)
    → OwnOnly w.connections
    → OwnOnly (unsubscribe w i topic).connections
unfolding unsubscribe
unsubscribe-OwnOnly w i topic (h, d) = (
  All-update_where HasOwn (connection_at i) (without_topic topic)
      (λ c own.
        All-delete_where (λ t. is_own c.user_id t ≡ true) (topic_eq topic) c.subscribed_topics own)
      w.connections h,
  Distinct-update_where same_connection (connection_at i) (without_topic topic) (λ _ _. refl)
      (λ _ _. refl) w.connections d,
)

pub safe_close-OwnOnly :
    (w : WsWorld) (i : ℕ) (code : CloseCode)
    → OwnOnly w.connections
    → OwnOnly (safe_close w i code).connections
unfolding safe_close
safe_close-OwnOnly w i code (h, d) = elim (Bool-cases (connected w i)) [
  | inr e ↦ rw e (h, d)
  | inl e ↦ rw e (
    All-update_where HasOwn (connection_at i) disconnected (λ c own. own) w.connections h,
    Distinct-update_where same_connection (connection_at i) disconnected (λ _ _. refl) (λ _ _. refl)
        w.connections d,
  )
]

pub unregister-OwnOnly :
    (w : WsWorld) (i : ℕ) → OwnOnly w.connections → OwnOnly (unregister w i).connections
unfolding unregister
unregister-OwnOnly w i (h, d) = (
  All-delete_where HasOwn (connection_at i) w.connections h,
  Distinct-delete_where same_connection (connection_at i) w.connections d,
)

pub connections-safe_send_json :
    (w : WsWorld) (i : ℕ) (frame : ServerFrame)
    → (safe_send_json w i frame).connections ≡ w.connections
unfolding safe_send_json
connections-safe_send_json w i frame = ground arith
