-- ===== src/Chat/Telegram/Buttons/Authority.antt =====
-- Who may press the buttons of internal/chat/telegram/webhook.go.
use mathlib.Core.Path.{subst}
use mathlib.Core.List.{Memᴰ}
use crypto_price_alert.Base.{
  String, ◌≡◌, ◌⊎◌, ◌==◌, ◌||◌, not, string_eq, some, List, [], ◌∷◌, refl, sym, ==_path, false,
  Option-cases, ok, ok?, Status, arith, Result-cases, Bool-cases, inl, inr,
}
use crypto_price_alert.Domain.Provider.{telegram}
use crypto_price_alert.Domain.Target.{AlertTarget}
use crypto_price_alert.Chat.Session.{ConfigSession}
use crypto_price_alert.Chat.Telegram.Types.{Message, ChatMember, CallbackQuery}
use crypto_price_alert.Chat.Telegram.Client.{get_chat_administrators}
use crypto_price_alert.Chat.Telegram.Callback.{parse_callback}
use crypto_price_alert.Chat.Telegram.Adapter.{Adapter, find_creator, chat_id_string, user_id_string}
use crypto_price_alert.Chat.Telegram.Buttons.{
  creator_id, own_session, press_button, press_on, process_callback,
}

-- What is found is a member with the status of a creator.
find_creator-member :
    (admins : List ChatMember) (creator : ChatMember)
    → find_creator admins ≡ some creator
    → Memᴰ creator admins × (creator.status ≡ "creator")
unfolding find_creator
find_creator-member [] creator h = absurd (ground arith)
find_creator-member (admin ∷ rest) creator h = elim (Bool-cases (admin.status == "creator")) [
  | inl is ↦
      (let same : admin ≡ creator = ground arith in
        (Memᴰ.head (sym same), rw (sym same) (==_path _ _ is)))
  | inr other ↦
      (let (member, creates) = find_creator-member rest creator (ground arith) in
        (Memᴰ.tail member, creates))
]

module _ {F W : Type 0} (a : Adapter F W) where
  -- The world behind the reads of the target and of the administrators.
  abbrev pub behind_target : Message → W → W
  behind_target message w =
      (a.targets.get_target telegram a.tenant_id (chat_id_string message.chat.id) w).1

  abbrev pub behind_members : Message → W → W
  behind_members message w =
      (get_chat_administrators a.client message.chat.id (behind_target message w)).1

  -- The worlds that a press leads to by its reads alone: of the target, of the administrators and of
  -- the session that its data name.
  pub data IsRead (callback : CallbackQuery) (w v : W) : Type 0 where
    untouched : v ≡ w → IsRead callback w v
    of_target :
        (message : Message)
        → callback.message ≡ some message
        → v ≡ behind_target message w
        → IsRead callback w v
    of_members :
        (message : Message)
        → callback.message ≡ some message
        → v ≡ behind_members message w
        → IsRead callback w v
    of_session :
        (message : Message) (id action : String)
        → callback.message ≡ some message
        → parse_callback callback.payload ≡ ok (id, action)
        → v ≡ (a.sessions.get id (behind_members message w)).1
        → IsRead callback w v

  -- What a press went through that may change something.
  pub record Pressed (callback : CallbackQuery) (w : W) : Type 0 where
    pub message : Message
    pub target : AlertTarget
    pub admins : List ChatMember
    pub creator : ChatMember
    pub session : ConfigSession
    pub id : String
    pub action : String
    pub here : callback.message ≡ some message
    pub known :
        (a.targets.get_target telegram a.tenant_id (chat_id_string message.chat.id) w).0 ≡ ok target
    pub listed :
        (get_chat_administrators a.client message.chat.id (behind_target message w)).0 ≡ ok admins
    pub member : Memᴰ creator admins
    pub creates : creator.status ≡ "creator"
    pub by_creator : user_id_string creator.user.id ≡ user_id_string callback.sender.id
    pub parsed : parse_callback callback.payload ≡ ok (id, action)
    pub found : (a.sessions.get id (behind_members message w)).0 ≡ ok session
    pub of_target : session.target_id ≡ target.id
    pub of_actor : session.actor_user_id ≡ user_id_string callback.sender.id

  abbrev Refused : CallbackQuery → W → Status × W → Type 0
  Refused callback w r = (ok? r.0 ≡ false) × IsRead callback w r.1

  press_button-guarded :
      (callback : CallbackQuery) (message : Message) (target : AlertTarget)
      (admins : List ChatMember) (creator : ChatMember) (w : W)
      → callback.message ≡ some message
      → (a.targets.get_target telegram a.tenant_id (chat_id_string message.chat.id) w).0 ≡ ok target
      → (get_chat_administrators a.client message.chat.id (behind_target message w)).0 ≡ ok admins
      → Memᴰ creator admins
      → creator.status ≡ "creator"
      → user_id_string creator.user.id ≡ user_id_string callback.sender.id
      → Refused callback w (press_button a callback message target (behind_members message w))
        ⊎ Pressed callback w
  unfolding press_button own_session
  press_button-guarded callback message target admins creator w here known listed member creates
        same =
      elim (Result-cases (parse_callback callback.payload)) [
        | inr (error, p) ↦ inl (ground arith, IsRead.of_members message here (ground arith))
        | inl ((id, action), p) ↦
            elim (Result-cases (a.sessions.get id (behind_members message w)).0) [
              | inr (error, s) ↦
                  inl (ground arith, IsRead.of_session message id action here p (ground arith))
              | inl (session, s) ↦
                  elim (Bool-cases (
                    not (session.target_id == target.id)
                    || not (session.actor_user_id == user_id_string callback.sender.id))) [
                      | inl foreign ↦
                          inl (
                            ground arith,
                            IsRead.of_session message id action here p (ground arith),
                          )
                      | inr own ↦ inr (record {
                        message = message;
                        target = target;
                        admins = admins;
                        creator = creator;
                        session = session;
                        id = id;
                        action = action;
                        here = here;
                        known = known;
                        listed = listed;
                        member = member;
                        creates = creates;
                        by_creator = same;
                        parsed = p;
                        found = s;
                        of_target = ground arith;
                        of_actor = ground arith;
                      })
                    ]
            ]
      ]

  press_on-guarded :
      (callback : CallbackQuery) (message : Message) (w : W)
      → callback.message ≡ some message
      → Refused callback w (press_on a callback message w) ⊎ Pressed callback w
  unfolding press_on creator_id
  press_on-guarded callback message w here =
      elim (Result-cases
        (a.targets.get_target telegram a.tenant_id (chat_id_string message.chat.id) w).0) [
          | inr (error, t) ↦ inl (ground arith, IsRead.of_target message here (ground arith))
          | inl (target, t) ↦
              elim (Result-cases
                (get_chat_administrators a.client message.chat.id (behind_target message w)).0) [
                  | inr (error, l) ↦
                      inl (ground arith, IsRead.of_members message here (ground arith))
                  | inl (admins, l) ↦ elim (Option-cases (find_creator admins)) [
                    | inl absent ↦ inl (
                      rw (t, l, press_on, creator_id, absent) (ground arith),
                      IsRead.of_members message here
                          (rw (t, l, press_on, creator_id, absent) (ground arith)),
                    )
                    | inr (creator, first) ↦
                        elim (Bool-cases (
                          user_id_string creator.user.id == ""
                          || not (
                              user_id_string creator.user.id
                              == user_id_string callback.sender.id))) [
                                | inl stranger ↦ inl (
                                  rw (t, l, press_on, creator_id, first, stranger) refl,
                                  IsRead.of_members message here
                                      (rw (t, l, press_on, creator_id, first, stranger) refl),
                                )
                                | inr same ↦
                                    (let opened : press_on a callback message w
                                          ≡ press_button a callback message target
                                              (behind_members message w) =
                                        rw (t, l, press_on, creator_id, first, same) refl in
                                      let (member, creates) =
                                        find_creator-member admins creator first in
                                      subst (λ r. Refused callback w r ⊎ Pressed callback w)
                                        (sym opened)
                                        (press_button-guarded callback message target admins creator
                                          w here t l member creates (ground arith)))
                              ]
                  ]
                ]
        ]

  -- A press of a button either fails, and the world is what reads alone lead to, of the target, of
  -- the administrators and of the session that its data name; or one of the administrators of the
  -- chat has the status `creator` and is the user who pressed, the data name a readable session,
  -- and this session is of that user and of the target of the chat.
  pub process_callback-Pressed :
      (callback : CallbackQuery) (w : W)
      → ((ok? (process_callback a callback w).0 ≡ false)
          × IsRead callback w (process_callback a callback w).1)
        ⊎ Pressed callback w
  unfolding process_callback
  process_callback-Pressed callback w = elim (Option-cases callback.message) [
    | inl absent ↦
        inl (
          rw (process_callback, absent) refl,
          IsRead.untouched (rw (process_callback, absent) refl),
        )
    | inr (message, here) ↦
        (let opened : process_callback a callback w ≡ press_on a callback message w =
            ground (arith, here) in
          subst (λ r. Refused callback w r ⊎ Pressed callback w) (sym opened)
            (press_on-guarded callback message w here))
  ]
