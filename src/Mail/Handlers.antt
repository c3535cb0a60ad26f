-- ===== src/Mail/Handlers.antt =====
-- src/hall_server/player_mail.go: the requests of a client about its mails.
use Prim.Native.String.{String}
use ih_server.Base.{
  ◌==◌, ℤ, pos, ◌+₃₂◌, ◌-₃₂◌, ◌*₃₂◌, ◌<?◌, ◌≤?◌, List, [], ◌∷◌, Option, none, some, Bool, true,
  false, not, ◌&&◌, ◌||◌, if◌then◌else◌, length, lookup, insert, delete, has_index, Dict, map,
}
use ih_server.Player.Env.{Env, Slice}
use ih_server.Player.State.{Player, value_or_zero}
use ih_server.Player.Resource.ById.{add_resource}
use ih_server.Mail.{
  basic_data, MailData, Mailbox, MailEnv, MailRet, mail_success, mail_failure, mail_not_found,
  mail_no_attached_item, mail_list_response, mail_detail, attached_items, mail_delete, post, change,
  get_items_info_from,
}

-- Whether a mail is past its days: those with attachments have days of their own.
unfoldable pub is_expired : Env → MailEnv → MailData → Bool
is_expired e m d =
    let days =
      if length d.attach_item_ids == 0
      then m.mail_normal_exist_days
      else m.mail_attach_exist_days in
    days *₃₂ pos 24 *₃₂ pos 3600 ≤? e.now -₃₂ d.send_unix

-- dbPlayerMailColumn.GetMailList: the mails that are left, and the others are deleted. The key of a
-- mail is its id.
unfoldable pub live_mails : Env → MailEnv → Dict MailData → Dict MailData
live_mails e m [] = []
live_mails e m ((k, d) ∷ mails) =
    let rest = live_mails e m mails in if is_expired e m d then rest else (k, d) ∷ rest

-- Player.GetMailList
unfoldable pub get_mail_list : Env → MailEnv → Mailbox → Mailbox × MailRet
get_mail_list e m b =
    let left = live_mails e m b.mails in
    (
      post (mail_list_response (map (λ (kd : ℤ × MailData). basic_data kd.1) left))
          (record b { new_mail_ids = none; mails = left }),
      mail_success,
    )

-- HasUnreadMail
unfoldable pub has_unread_mail : Env → MailEnv → Dict MailData → Bool
has_unread_mail e m [] = false
has_unread_mail e m ((k, d) ∷ mails) =
    let rest = has_unread_mail e m mails in
    if (e.now -₃₂ d.send_unix <? m.mail_attach_exist_days *₃₂ pos 24 *₃₂ pos 3600)
      && (d.is_read ≤? pos 0)
    then true
    else rest

-- SetIsRead
abbrev pub set_is_read : ℤ → Mailbox → Mailbox
set_is_read id b = change id (λ (x : MailData). record x { is_read = pos 1 }) b

-- The loop of GetMailDetail; `none` is a mail that is not there, where the mails before it are read.
unfoldable pub read_mails : List ℤ → Mailbox → Mailbox × Option (List (ℤ × String × List (ℤ × ℤ)))
read_mails [] b = (b, some [])
read_mails (id ∷ ids) b = elim (lookup id b.mails) [
  | none ↦ (b, none)
  | some d ↦
      let (c, rest) = read_mails ids (set_is_read id b) in
      (
        c,
        elim rest [
          | none ↦ none
          | some l ↦
              some ((id, d.content, get_items_info_from d.attach_item_ids d.attach_item_nums) ∷ l)
        ],
      )
]

-- GetMailDetail
unfoldable pub get_mail_detail : Slice → Mailbox → Mailbox × MailRet
get_mail_detail none b = (b, mail_failure)
get_mail_detail (some []) b = (b, mail_failure)
get_mail_detail (some (id ∷ ids)) b =
    let (c, details) = read_mails (id ∷ ids) b in
    elim details [ none ↦ (c, mail_not_found) | some l ↦ (post (mail_detail l) c, mail_success) ]

-- The items of one mail, in GetMailAttachedItems: the player, and what is reported.
unfoldable pub claim_items : Env → MailEnv → List (ℤ × ℤ) → Player × Dict ℤ → Player × Dict ℤ
claim_items e m [] s = s
claim_items e m ((id, num) ∷ l) (p, report) =
    let counted = insert id (value_or_zero (lookup id report) +₃₂ num) report in
    elim (e.item_table id) [
      | some item ↦ claim_items e m l ((add_resource e id num p).0, counted)
      | none ↦
          if not (m.has_rank_card id) || m.roles_full p
          then claim_items e m l (p, report)
          else claim_items e m l (m.new_role id p, counted)
    ]

-- The loop of GetMailAttachedItems over the mails.
unfoldable pub claim_mails :
    Env → MailEnv → List ℤ → Player → Mailbox → Dict ℤ → Player × Mailbox × Dict ℤ × MailRet
claim_mails e m [] p b report = (p, b, report, mail_success)
claim_mails e m (id ∷ ids) p b report = elim (lookup id b.mails) [
  | none ↦ (p, b, report, mail_not_found)
  | some d ↦ elim (get_items_info_from d.attach_item_ids d.attach_item_nums) [
    | [] ↦ (p, b, report, mail_no_attached_item)
    | i ∷ is ↦
        let (q, r) = claim_items e m (i ∷ is) (p, report) in
        claim_mails e m ids q
          (change id (λ (x : MailData). record x { is_read = pos 1; is_get_attached = pos 1 }) b) r
  ]
]

-- GetMailAttachedItems
unfoldable pub get_mail_attached_items :
    Env → MailEnv → Slice → Player → Mailbox → Player × Mailbox × MailRet
get_mail_attached_items e m none p b = (p, b, mail_failure)
get_mail_attached_items e m (some ids) p b =
    let (q, c, report, ret) = claim_mails e m ids p b [] in
    elim ret [
      | mail_success ↦ (q, post (attached_items ids report) c, mail_success)
      | failed ↦ (q, c, failed)
    ]

-- The loop of DeleteMails; `false` at a mail that is not there, where those before it are deleted.
unfoldable pub remove_mails : List ℤ → Mailbox → Mailbox × Bool
remove_mails [] b = (b, true)
remove_mails (id ∷ ids) b =
    let rest = remove_mails ids (record b { mails = delete id b.mails }) in
    if has_index id b.mails then rest else (b, false)

-- DeleteMails
unfoldable pub delete_mails : Slice → Mailbox → Mailbox × MailRet
delete_mails none b = (b, mail_failure)
delete_mails (some []) b = (b, mail_failure)
delete_mails (some (id ∷ ids)) b =
    let (c, done) = remove_mails (id ∷ ids) b in
    if done then (post (mail_delete (id ∷ ids)) c, mail_success) else (c, mail_not_found)
