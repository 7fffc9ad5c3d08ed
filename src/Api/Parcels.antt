-- ===== src/Api/Parcels.antt =====
-- What the parcel of a message has of its request, and the two fan-outs.
use agent_chat.Prelude.{
  ℕ, ◌≡◌, refl, subst, false, not, ◌||◌, Option, none, some, List, [], ◌∷◌, Str, is_empty,
}
use agent_chat.Errcode.{invalid_argument}
use agent_chat.Errcode.Result.{require, Result, ◌>>=◌, bind_ext, AllOk, AllOk-bind, AllOk-Unit}
use agent_chat.Store.{Db, Account, Membership, MessagePriority}
use agent_chat.Mentions.{parse_mentions}
use agent_chat.Message.{Draws, is_member, add_mentions}
use agent_chat.Message as Ingester
use agent_chat.Api.{drawn, provider_for_actor}
use agent_chat.Api.Post.{
  SendEnv, SendRequest, Sent, Outgoing, Parcel, authorize, check_attachments, outgoing, post,
  checked, chosen_priority, has_attachments,
}
use agent_chat.Api.Send.{fan_out}

-- The part of the ingester's reads that its fan-out uses.
abbrev pub reading_at : ℕ → Draws
reading_at now = record {
  message_uuid = none;
  attachment_uuid = λ k. none;
  attachment_time = λ k. 0;
  read_time = now;
  archive_time = 0;
  audit_uuid = none;
  audit_time = 0;
  payload = λ s. s;
  content_hash = λ s. s;
}

-- The two fan-outs write the same rows.
pub same_fan_out :
    (now : ℕ) (actor_id id : Str) (members : List Membership) (t : Db)
    → is_empty actor_id ≡ false
    → fan_out now actor_id id members t ≡ Ingester.fan_out (reading_at now) id actor_id members t
unfolding fan_out Ingester.fan_out
same_fan_out now actor_id id [] t given = refl
same_fan_out now actor_id id (m ∷ members) t given =
    rw given (bind_ext _ _ _ (λ t1. same_fan_out now actor_id id members t1 given))

-- What the parcel has of the request.
pub record Addressed (actor_id room_id : Str) (p : Parcel) : Type 0 where
  pub actor : p.actor_id ≡ actor_id
  pub room : p.room_id ≡ room_id
  pub author : p.row.author_account_id ≡ actor_id
  pub row_room : p.row.room_id ≡ room_id
  pub discord_id : p.row.discord_msg_id ≡ p.sent.id
  pub content : p.row.content ≡ p.parsed.rewritten_content
  pub everyone : p.row.mention_everyone ≡ p.parsed.everyone

post-Addressed :
    (e : SendEnv) (live : Option (Outgoing → Result Sent)) (actor_id room_id : Str)
    (q : MessagePriority) (req : SendRequest) (db : Db)
    → AllOk (Addressed actor_id room_id) (post e live actor_id room_id q req db)
unfolding post
post-Addressed e live actor_id room_id q req db =
    AllOk-bind (λ _. Unit) (Addressed actor_id room_id)
      (authorize actor_id q room_id req.reply_to_id db) _ (AllOk-Unit _)
      (λ t _.
        AllOk-bind (λ _. Unit) (Addressed actor_id room_id) (parse_mentions req.content t.members) _
          (AllOk-Unit _)
          (λ parsed _.
            AllOk-bind (λ _. Unit) (Addressed actor_id room_id)
              (check_attachments e req.attachments) _ (AllOk-Unit _)
              (λ uploads _.
                AllOk-bind (λ _. Unit) (Addressed actor_id room_id) (provider_for_actor live) _
                  (AllOk-Unit _)
                  (λ send _.
                    AllOk-bind (λ _. Unit) (Addressed actor_id room_id)
                      (send (outgoing t parsed uploads)) _ (AllOk-Unit _)
                      (λ sent _.
                        AllOk-bind (λ _. Unit) (Addressed actor_id room_id) (drawn e.base.uuid) _
                          (AllOk-Unit _)
                          (λ id _. record {
                            actor = refl;
                            room = refl;
                            author = refl;
                            row_room = refl;
                            discord_id = refl;
                            content = refl;
                            everyone = refl;
                          }))))))

caller_kept :
    (who : Account) (req : SendRequest)
    → AllOk (λ (x : Str × MessagePriority). x.0 ≡ who.id) (checked (some who) req)
caller_kept who req =
    AllOk-bind (λ _. Unit) (λ (x : Str × MessagePriority). x.0 ≡ who.id)
      (require (not (is_empty req.content) || has_attachments req.attachments) invalid_argument) _
      (AllOk-Unit _)
      (λ u _.
        AllOk-bind (λ _. Unit) (λ (x : Str × MessagePriority). x.0 ≡ who.id)
          (chosen_priority req.priority) _ (AllOk-Unit _) (λ q _. refl))

pub request-Addressed :
    (e : SendEnv) (live : Option (Outgoing → Result Sent)) (who : Account) (room_id : Str)
    (req : SendRequest) (db : Db)
    → AllOk
        (Addressed who.id room_id)
        (checked (some who) req >>= λ x. post e live x.0 room_id x.1 req db)
request-Addressed e live who room_id req db =
    AllOk-bind (λ (x : Str × MessagePriority). x.0 ≡ who.id) (Addressed who.id room_id)
      (checked (some who) req) _ (caller_kept who req)
      (λ x own.
        subst (λ a. AllOk (Addressed a room_id) (post e live x.0 room_id x.1 req db)) own
          (post-Addressed e live x.0 room_id x.1 req db))
