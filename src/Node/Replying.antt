-- ===== src/Node/Replying.antt =====
-- dscuss.go: NewReply.
use dscuss.Prelude.{
  ℕ, ◌<◌, ◌≤◌, ◌≡◌, ap, ◌∙◌, arith, Bytes, true, false, some, ok, err, leb, msg_depth_exceeded,
  if◌then◌else◌,
}
use dscuss.Entity.{EntityId, Message}
use dscuss.Entity.Messages.{Readings, max_message_depth, is_message_valid, emerge_message}
use dscuss.Entity.Messages.Posting.{emerge_message-is_valid}
use dscuss.Subs.Topic.{nil}
use dscuss.Env.{Env, IsLawful}
use dscuss.Sqlite.MessageTable.{get_message}
use dscuss.Storage.Lookup.{Rooted, get_root_total}
use dscuss.Node.{LoginHandle, with_message, reply_at, reply_to, new_reply}

-- `NewReply` to a stored message at depth d of its thread, whose parents are stored too, returns. If d
-- is not below the limit it refuses the reply with MsgDepthExceeded and changes nothing. If d is below
-- the limit, it returns what `EmergeMessage` returns for the user, the parent and a nil topic, and
-- keeps its time of the last message; a message that is returned then is valid under the user's key,
-- if ECDSA verifies what it signs and r and s fit a coordinate.
pub new_reply_lem :
    (env : Env) (lh : LoginHandle) (fuel : ℕ) (now : Readings) (subj text : Bytes)
    (parent_id : EntityId) (p r : Message) (d : ℕ)
    → IsLawful env
    → get_message env lh.storage.db parent_id ≡ ok p
    → Rooted env lh.storage.db p r d
    → d < fuel
    → (max_message_depth ≤ d
        → new_reply env lh fuel now subj text parent_id ≡ some (err msg_depth_exceeded, lh))
      × (d < max_message_depth
          → let (res, last) =
              emerge_message env lh.last_msg now subj text lh.user.id parent_id lh.signer nil in
            (new_reply env lh fuel now subj text parent_id
              ≡ some (res, record lh { last_msg = last }))
            × ((m : Message)
                → res ≡ ok m
                → is_message_valid env m (env.public lh.signer) ≡ ok true))
unfolding new_reply reply_to reply_at
new_reply_lem env lh fuel now subj text parent_id p r d lawful e c l =
    let depth = (get_root_total env lh.storage.db fuel p r d c l).1 in
    let emerged = emerge_message env lh.last_msg now subj text lh.user.id parent_id lh.signer nil in
    let at_depth : new_reply env lh fuel now subj text parent_id ≡ (
        if leb max_message_depth d
        then some (err msg_depth_exceeded, lh)
        else some (with_message lh emerged)) =
      ap (reply_to env lh fuel now subj text parent_id) e
      ∙ ap (reply_at env lh now subj text parent_id) depth in
    (
      λ deep.
          let full : leb max_message_depth d ≡ true = ground arith in
          at_depth
          ∙ ap
              (λ b. if b then some (err msg_depth_exceeded, lh) else some (with_message lh emerged))
              full,
      λ shallow.
          let room : leb max_message_depth d ≡ false = ground arith in
          (
            at_depth
                ∙ ap
                    (λ b.
                      if b
                      then some (err msg_depth_exceeded, lh)
                      else some (with_message lh emerged))
                    room,
            λ m h.
                emerge_message-is_valid env subj text lh.user.id parent_id lh.signer nil lh.last_msg
                  now m lawful h,
          ),
    )
