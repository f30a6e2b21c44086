-- ===== src/Ws/Recipients.antt =====
-- Who hears an event that is published on a topic.
use mathlib.Core.List.{append-nil, append_assoc}
use chatspace.Prelude.{
  ℕ, ◌≡◌, ◌≢◌, ap, sym, ◌∙◌, Bool, true, false, Option, none, some, List, [], ◌∷◌, ◌++◌, map, ◌==◌,
  err, find, any_row, select, All, arith, Bool-cases, inl, inr, All-select, All-weaken,
}
use chatspace.Db.{get_member}
use chatspace.Messages.Send.{Topic, channel_topic}
use chatspace.Ws.{
  WsWorld, ConnectionState, Conversation, channel_conversation, unauthorized_join, connection_at,
  is_subscribed, topic_eq, Payload, typing_event, other_event, relayed, ServerFrame,
  authorize_conversation,
}
use chatspace.Ws.Relay.{
  receives, broadcast_over, broadcast_to_topic, handle_message, typing_typer_id,
}
use chatspace.Ws.Registry.{is_own, HasOwn}
use chatspace.Ws.Topics.{Reach, Reach-OwnOnly}

abbrev pub frames_to : Payload → List ConnectionState → List (ℕ × ServerFrame)
frames_to payload cs = map (λ c. (c.connection_id, relayed payload)) cs

sent-broadcast_over :
    (delivers : ℕ → Bool) (cs : List ConnectionState) (w : WsWorld) (topic : Topic)
    (payload : Payload) (exclude : Option ℕ)
    → (broadcast_over delivers cs w topic payload exclude).sent
      ≡ w.sent ++ frames_to payload (select (receives delivers topic exclude) cs)
unfolding broadcast_over select
sent-broadcast_over delivers [] w topic payload exclude = sym (append-nil w.sent)
sent-broadcast_over delivers (c ∷ cs) w topic payload exclude =
    elim (Bool-cases (receives delivers topic exclude c)) [
      | inl e ↦
          rw (e, broadcast_over)
            (sent-broadcast_over delivers cs
                (record w { sent = w.sent ++ ((c.connection_id, relayed payload) ∷ []) }) topic
                payload exclude
              ∙ append_assoc w.sent ((c.connection_id, relayed payload) ∷ [])
                  (frames_to payload (select (receives delivers topic exclude) cs)))
      | inr e ↦ rw (e, broadcast_over) (sent-broadcast_over delivers cs w topic payload exclude)
    ]

is_own_of_eq : (u : ℕ) (a b : Topic) → topic_eq a b ≡ true → is_own u b ≡ true → is_own u a ≡ true
is_own_of_eq u a b e h = ground (arith, e, h)

subscribed_is_own :
    (u : ℕ) (topic : Topic) (ts : List Topic)
    → All (λ t. is_own u t ≡ true) ts
    → any_row (topic_eq topic) ts ≡ true
    → is_own u topic ≡ true
unfolding any_row
subscribed_is_own u topic [] h k = ground (arith, k)
subscribed_is_own u topic (t ∷ ts) (h, hs) k = elim (Bool-cases (topic_eq topic t)) [
  | inl e ↦ is_own_of_eq u topic t e h
  | inr e ↦ subscribed_is_own u topic ts hs (ground (arith, e, k))
]

All-heard_own :
    (delivers : ℕ → Bool) (topic : Topic) (exclude : Option ℕ) (cs : List ConnectionState)
    → All HasOwn cs
    → All (λ c. is_own c.user_id topic ≡ true) (select (receives delivers topic exclude) cs)
unfolding select
All-heard_own delivers topic exclude [] h = tt
All-heard_own delivers topic exclude (c ∷ cs) (h, hs) =
    elim (Bool-cases (receives delivers topic exclude c)) [
      | inl e ↦ rw e (
        subscribed_is_own c.user_id topic c.subscribed_topics h (ground (arith, e)),
        All-heard_own delivers topic exclude cs hs,
      )
      | inr e ↦ rw e (All-heard_own delivers topic exclude cs hs)
    ]

abbrev pub IsNotTypist : Payload → ℕ → Type 0
IsNotTypist (typing_event typist conversation) u = u ≢ typist
IsNotTypist (other_event e) u = Unit

-- The connection is open and a send to it succeeds, it has joined the topic, and its user is not
-- the typist that the payload names.
abbrev pub Hears : (delivers : ℕ → Bool) → Topic → Payload → ConnectionState → Type 0
Hears delivers topic payload c =
    (c.is_connected ≡ true)
    × (delivers c.connection_id ≡ true)
    × (any_row (topic_eq topic) c.subscribed_topics ≡ true)
    × IsNotTypist payload c.user_id

-- The second list is the first without the connections that fail the predicate.
pub data Filtered (P : ConnectionState → Type 0)
    : List ConnectionState → List ConnectionState → Type 0 where
  ended : Filtered P [] []
  hears :
      {c : ConnectionState} {cs heard : List ConnectionState}
      → P c
      → Filtered P cs heard
      → Filtered P (c ∷ cs) (c ∷ heard)
  silent :
      {c : ConnectionState} {cs heard : List ConnectionState}
      → ¬ P c
      → Filtered P cs heard
      → Filtered P (c ∷ cs) heard

receives-Hears :
    (delivers : ℕ → Bool) (topic : Topic) (payload : Payload) (c : ConnectionState)
    → receives delivers topic (typing_typer_id payload) c ≡ true
    → Hears delivers topic payload c
receives-Hears delivers topic (typing_event t conversation) c h =
    (ground (arith, h), ground (arith, h), ground (arith, h), λ e. ground (arith, h, e))
receives-Hears delivers topic (other_event e) c h =
    (ground (arith, h), ground (arith, h), ground (arith, h), tt)

refuses-Hears :
    (delivers : ℕ → Bool) (topic : Topic) (payload : Payload) (c : ConnectionState)
    → receives delivers topic (typing_typer_id payload) c ≡ false
    → ¬ Hears delivers topic payload c
refuses-Hears delivers topic (typing_event t conversation) c h (live, sends, joined, other) =
    other (ground (arith, h, live, sends, joined))
refuses-Hears delivers topic (other_event e) c h (live, sends, joined, other) =
    ground (arith, h, live, sends, joined)

select-Filtered :
    (delivers : ℕ → Bool) (topic : Topic) (payload : Payload) (cs : List ConnectionState)
    → Filtered
        (Hears delivers topic payload)
        cs
        (select (receives delivers topic (typing_typer_id payload)) cs)
unfolding select
select-Filtered delivers topic payload [] = ended
select-Filtered delivers topic payload (c ∷ cs) =
    let rest = select-Filtered delivers topic payload cs in
    elim (Bool-cases (receives delivers topic (typing_typer_id payload) c)) [
      | inl e ↦ rw e (hears (receives-Hears delivers topic payload c e) rest)
      | inr e ↦ rw e (silent (refuses-Hears delivers topic payload c e) rest)
    ]

-- In every world that is reached from an instance without connections, a relayed event is sent,
-- in the order of the registry, to the connections that are open, reachable, have joined its
-- topic and are not of the typist that it names, and to no others; and where the topic is that of
-- a direct conversation or of a user, these are connections of one of the two participants or of
-- that user.
pub heard_by_own :
    (start w : WsWorld)
    → start.connections ≡ []
    → Reach start w
    → (delivers : ℕ → Bool) (topic : Topic) (payload : Payload)
    → (heard : List ConnectionState) × Filtered (Hears delivers topic payload) w.connections heard
      × ((handle_message delivers w topic (some payload)).sent ≡ w.sent ++ frames_to payload heard)
      × All (λ c. is_own c.user_id topic ≡ true) heard
unfolding handle_message broadcast_to_topic
heard_by_own start w empty r delivers topic payload = (
  select (receives delivers topic (typing_typer_id payload)) w.connections,
  select-Filtered delivers topic payload w.connections,
  sent-broadcast_over delivers w.connections w topic payload (typing_typer_id payload),
  All-heard_own delivers topic (typing_typer_id payload) w.connections
      (Reach-OwnOnly start w empty r).0,
)

pub typing_not_echoed :
    (delivers : ℕ → Bool) (w : WsWorld) (topic : Topic) (u : ℕ) (conversation : Conversation)
    → let heard = select (receives delivers topic (some u)) w.connections in
      ((handle_message delivers w topic (some (typing_event u conversation))).sent
        ≡ w.sent ++ frames_to (typing_event u conversation) heard)
      × All (λ c. (c.user_id == u) ≡ false) heard
unfolding handle_message broadcast_to_topic
typing_not_echoed delivers w topic u conversation = (
  sent-broadcast_over delivers w.connections w topic (typing_event u conversation) (some u),
  All-weaken _ (λ c. (c.user_id == u) ≡ false) (λ c h. ground (arith, h)) _
      (All-select (receives delivers topic (some u)) w.connections),
)

-- A frame to the connection with this id is among those that are sent.
frame-found :
    (p : ConnectionState → Bool) (payload : Payload) (i : ℕ) (conn : ConnectionState)
    (cs : List ConnectionState)
    → find (connection_at i) cs ≡ some conn
    → p conn ≡ true
    → (before after : List (ℕ × ServerFrame)) × (frames_to payload (select p cs)
        ≡ before ++ ((i, relayed payload) ∷ after))
unfolding find select
frame-found p payload i conn [] n h = ground arith
frame-found p payload i conn (c ∷ cs) n h = elim (Bool-cases (connection_at i c)) [
  | inl e ↦
      let same : c ≡ conn = ground arith in
      let own : c.connection_id ≡ i = ground (arith, e) in
      let got : p c ≡ true = rw same h in
      (
        [],
        frames_to payload (select p cs),
        rw got (ap (λ x. (x, relayed payload) ∷ frames_to payload (select p cs)) own),
      )
  | inr e ↦
      let (before, after, q) = frame-found p payload i conn cs (ground arith) h in
      elim (Bool-cases (p c)) [
        | inl g ↦ (
          (c.connection_id, relayed payload) ∷ before,
          after,
          rw g (ap (λ fs. (c.connection_id, relayed payload) ∷ fs) q),
        )
        | inr g ↦ (before, after, rw g q)
      ]
]

-- When a connection is open and reachable and has joined a channel, and the tables by now have no
-- membership of its user there, so that a join is refused, the relay of an event of the channel
-- that names no typist sends it to that connection.
pub removed_still_hears :
    (delivers : ℕ → Bool) (w : WsWorld) (i c : ℕ) (conn : ConnectionState) (e : Payload)
    → find (connection_at i) w.connections ≡ some conn
    → is_subscribed (channel_topic c) conn ≡ true
    → conn.is_connected ≡ true
    → delivers conn.connection_id ≡ true
    → typing_typer_id e ≡ none
    → get_member w.auth.db c conn.user_id ≡ none
    → (authorize_conversation w.auth.db (channel_conversation c) conn.user_id
        ≡ err unauthorized_join)
      × ((before after : List (ℕ × ServerFrame)) × ((handle_message delivers w
              (channel_topic c)
              (some e)).sent
            ≡ w.sent ++ (before ++ ((i, relayed e) ∷ after))))
unfolding authorize_conversation handle_message broadcast_to_topic
removed_still_hears delivers w i c conn e n sub live sends other gone =
    let got : receives delivers (channel_topic c) (typing_typer_id e) conn ≡ true =
      rw other (ground (arith, sub, live, sends)) in
    let (before, after, q) =
      frame-found (receives delivers (channel_topic c) (typing_typer_id e)) e i conn w.connections n
        got in
    (
      ground (arith, gone),
      (
        before,
        after,
        sent-broadcast_over delivers w.connections w (channel_topic c) e (typing_typer_id e)
            ∙ ap (λ fs. w.sent ++ fs) q,
      ),
    )
