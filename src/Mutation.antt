-- ===== src/Mutation.antt =====
-- internal/app/telegram_mutation_order.go: the changes of a chat's settings in the order of the updates
-- that ask for them.
pub mod Convergence
use cryptopulse_telegram_bot.Prelude.{
  ℕ, suc, ◌+◌, ◌-◌, ◌*◌, ◌^◌, Bool, true, false, not, ◌&&◌, ◌||◌, Option, none, some, List, [], ◌∷◌,
  ◌++◌, ltb, leb, ◌==◌, ℤ, pos, negsuc, eqb_ℤ, leb_ℤ, if◌then◌else◌, drop, any,
}
use cryptopulse_telegram_bot.Bytes.{Bytes, bytes, bytes_eq, has_prefix}
use cryptopulse_telegram_bot.Schema.{VersionRow, Setting, subscription, interval, language, Db}
use cryptopulse_telegram_bot.Table.{update, affected}
use cryptopulse_telegram_bot.Session.{Env, Try, ◌>>=◌, return, read, exec, rows_affected}
use cryptopulse_telegram_bot.Strconv.{atoi}
use cryptopulse_telegram_bot.Update.{Update, Message, CallbackQuery}
use cryptopulse_telegram_bot.Inbox.Jobs.{TelegramUpdateJob}

-- AllowedLanguage of a text that is not a literal
abbrev pub is_language : Bytes → Bool
is_language b = bytes_eq b (bytes "ua") || bytes_eq b (bytes "en") || bytes_eq b (bytes "ru")

abbrev pub is_interval : Option ℤ → Bool
is_interval none = false
is_interval (some minutes) = leb_ℤ (pos 1) minutes && leb_ℤ minutes (pos 1440)

-- The pointer of the callback's message, and of its chat, may be nil.
abbrev has_chat : Option Message → Bool
has_chat none = false
has_chat (some m) = elim m.chat [ none ↦ false | some chat ↦ true ]

unfoldable pub setting_of_callback : CallbackQuery → Option Setting
setting_of_callback q =
    if not (has_chat q.message)
    then none
    else if has_prefix q.payload (bytes "setlang_") && is_language (drop 8 q.payload)
    then some language
    else if has_prefix q.payload (bytes "int_") && is_interval (atoi (drop 4 q.payload))
    then some interval
    else none

unfoldable pub setting_of_message : Option Message → Option Setting
setting_of_message none = none
setting_of_message (some m) =
    if bytes_eq m.command (bytes "subscribe") || bytes_eq m.command (bytes "unsubscribe")
    then some subscription
    else none

unfoldable pub telegram_mutation_setting : Update → Option Setting
telegram_mutation_setting u = elim u.callback_query [
  | some q ↦ setting_of_callback q
  | none ↦ setting_of_message u.message
]

abbrev pub same_setting : Setting → Setting → Bool
same_setting subscription subscription = true
same_setting interval interval = true
same_setting language language = true
same_setting subscription interval = false
same_setting subscription language = false
same_setting interval subscription = false
same_setting interval language = false
same_setting language subscription = false
same_setting language interval = false

-- The primary key of telegram_mutation_versions
abbrev pub same_key : VersionRow → VersionRow → Bool
same_key a b = eqb_ℤ a.chat_id b.chat_id && same_setting a.setting b.setting

-- (a.stream_epoch, a.update_id) < (b.stream_epoch, b.update_id)
abbrev pub older : VersionRow → VersionRow → Bool
older a b =
    ltb a.stream_epoch b.stream_epoch
    || (a.stream_epoch == b.stream_epoch && ltb a.update_id b.update_id)

abbrev pub is_replaced : VersionRow → VersionRow → Bool
is_replaced v row = same_key v row && older row v

abbrev pub replaced : VersionRow → VersionRow → VersionRow
replaced v row = record row { stream_epoch = v.stream_epoch; update_id = v.update_id }

-- INSERT … ON CONFLICT (chat_id, setting) DO UPDATE … WHERE the stored version is older: how many rows
-- are affected, and the table.
unfoldable pub upsert : VersionRow → List VersionRow → ℕ × List VersionRow
upsert v rows =
    if any (same_key v) rows
    then (affected (is_replaced v) rows, update (is_replaced v) (replaced v) rows)
    else (1, rows ++ v ∷ [])

abbrev pub version_of : TelegramUpdateJob → Setting → VersionRow
version_of job setting = record {
  chat_id = job.chat_id;
  setting = setting;
  stream_epoch = job.stream_epoch;
  update_id = job.update_id;
}

-- A callback does not change the interval of a newer subscription.
abbrev pub superseded : TelegramUpdateJob → ℕ → Db → Bool
superseded job now db =
    let v = version_of job subscription in
    any (λ row. same_key v row && older v row) db.mutation_versions

abbrev pub store_version : VersionRow → ℕ → Db → ℕ × Db
store_version v now db =
    let r = upsert v db.mutation_versions in (r.0, record db { mutation_versions = r.1 })

unfoldable pub advance_version : Env → TelegramUpdateJob → Setting → Try Bool
advance_version env job setting = do
  affected ← exec env (store_version (version_of job setting))
  count ← rows_affected env affected
  return (ltb 0 count)

unfoldable pub unless_superseded : Env → TelegramUpdateJob → Bool → Try Bool
unless_superseded env job true = return false
unless_superseded env job false = advance_version env job interval

unfoldable pub allow_setting : Env → TelegramUpdateJob → Option Setting → Try Bool
allow_setting env job none = return true
allow_setting env job (some subscription) = advance_version env job subscription
allow_setting env job (some language) = advance_version env job language
allow_setting env job (some interval) = do
  newer ← read env (superseded job)
  unless_superseded env job newer

-- allowTelegramMutation
unfoldable pub allow_telegram_mutation : Env → TelegramUpdateJob → Update → Try Bool
allow_telegram_mutation env job u = allow_setting env job (telegram_mutation_setting u)
