-- ===== src/Notifier.antt =====
-- policyd_py/notification/notifier.py: the messages that go to Telegram, Discord, e-mail and a script. The
-- HTTP session, the mail server and the script are outside. The tasks of one notification run one after
-- the other here, in the order in which they are created.
use policyd_py.Base.{
  ℕ, Bool, not, ◌||◌, Option, none, some, List, [], ◌∷◌, ◌++◌, is_empty, if◌then◌else◌, Text, codes,
  decimal, replace, join_text, runtime_error, returned, raised, Eff, pure, ◌>>=◌, ◌>>◌, try_except,
}
use policyd_py.Base.Dict.{Dict}
use policyd_py.Script.{Processes, ScriptConfig, text, number, new_runner, run}

pub record TelegramConfig : Type 0 where
  pub enable : Bool
  pub bot_token : Text
  pub chat_id : Text

pub record DiscordConfig : Type 0 where
  pub enable : Bool
  pub bot_token : Text
  pub channel_id : Text
  pub message_template : Text

pub record EmailConfig : Type 0 where
  pub enable : Bool
  pub smtp_host : Text
  pub smtp_port : ℕ
  pub smtp_user : Text
  pub smtp_password : Text
  pub from_addr : Text
  pub from_display_name : Text
  pub to : List Text
  pub subject : Text
  pub template : Text

pub record EmailMessage : Type 0 where
  pub from_header : Text
  pub to_header : Text
  pub subject_header : Text
  pub content : Text

-- A session is a number; its calls, and the connection to the mail server from `SMTP(...)` to the end
-- of the `with`, may raise.
pub record Channels (World : Type 0) : Type 0 where
  -- import aiohttp; ClientSession(...)
  pub has_aiohttp : Bool
  pub open_session : World → ℕ × World
  pub is_closed : ℕ → World → Bool
  pub close_session : ℕ → World → World
  -- the status of a post: url, headers and the fields of the payload
  pub post : ℕ → Text → Dict Text → Dict Text → Eff World ℕ
  pub timestamp : World → Text
  pub smtp : Text → ℕ → Eff World (Unit {0})
  pub starttls : Eff World (Unit {0})
  pub login : Text → Text → Eff World (Unit {0})
  pub send_message : EmailMessage → Eff World (Unit {0})

pub record NotifierConfig : Type 0 where
  pub telegram : TelegramConfig
  pub discord : DiscordConfig
  pub email : EmailConfig
  pub script : ScriptConfig

pub record Notifier (World : Type 0) : Type 0 where
  pub session : Option ℕ
  pub world : World

-- value or default
abbrev or_text : Text → Text → Text
or_text [] default = default
or_text (c ∷ s) default = c ∷ s

module _ {World : Type 0} (channels : Channels World) (processes : Processes World)
    (config : NotifierConfig) where
  abbrev pub Task : Type 0
  Task = Eff (Notifier World) (Unit {0})

  -- What the notifier calls keeps the notifier.
  unfoldable pub outside : {A : Type 0} → Eff World A → Eff (Notifier World) A
  outside m n = let (r, w) = m n.world in (r, record n { world = w })

  unfoldable pub close_open : Option ℕ → Notifier World → Notifier World
  close_open none n = n
  close_open (some session) n =
      if channels.is_closed session n.world
      then n
      else record n { world = channels.close_session session n.world }

  unfoldable pub close : Notifier World → Notifier World
  unfolding close_open
  close n = close_open n.session n

  -- asyncio.gather(*tasks, return_exceptions=True)
  unfoldable pub gather : List Task → Task
  gather [] n = (returned tt, n)
  gather (task ∷ tasks) n = gather tasks (task n).1

  unfoldable pub fresh_session : Eff (Notifier World) ℕ
  fresh_session n =
      let (session, w) = channels.open_session n.world in
      (returned session, record n { session = some session; world = w })

  unfoldable pub session_or_fresh : Option ℕ → Eff (Notifier World) ℕ
  unfolding fresh_session
  session_or_fresh none n = fresh_session n
  session_or_fresh (some session) n =
      if channels.is_closed session n.world then fresh_session n else (returned session, n)

  unfoldable pub get_session : Eff (Notifier World) ℕ
  unfolding session_or_fresh
  get_session n = if channels.has_aiohttp then session_or_fresh n.session n else (
    raised (runtime_error (codes "aiohttp is required for Telegram/Discord notifications")),
    n,
  )

  unfoldable pub send_telegram : Text → Task
  unfolding get_session outside
  send_telegram message = do
    session ← get_session
    try_except
        (do
          outside (
              channels.post session
                (codes "https://api.telegram.org/bot"
                  ++ (config.telegram.bot_token ++ codes "/sendMessage"))
                [] ((codes "chat_id", config.telegram.chat_id) ∷ (codes "text", message) ∷ []))
          pure tt)
        (λ exc. pure tt)

  unfoldable pub send_discord : Text → Task
  unfolding get_session outside replace
  send_discord message n =
      (do
        session ← get_session
        try_except
            (do
              outside (
                  channels.post session
                    (codes "https://discord.com/api/channels/"
                      ++ (config.discord.channel_id ++ codes "/messages"))
                    ((codes "Content-Type", codes "application/json")
                      ∷ (codes "Authorization", codes "Bot " ++ config.discord.bot_token)
                      ∷ [])
                    ((
                      codes "content",
                      replace (codes "{timestamp}") (channels.timestamp n.world) (
                          replace (codes "{message}") message
                            (or_text config.discord.message_template (codes "{message}"))),
                    )
                      ∷ []))
              pure tt)
            (λ exc. pure tt))
        n

  unfoldable pub email_message : Text → EmailMessage
  unfolding replace
  email_message message = record {
    from_header =
        if is_empty config.email.from_display_name
        then config.email.from_addr
        else config.email.from_display_name
          ++ (codes " <" ++ (config.email.from_addr ++ codes ">"));
    to_header = join_text (codes ", ") config.email.to;
    subject_header = config.email.subject;
    content =
        replace (codes "{message}") message (or_text config.email.template (codes "{message}"));
  }

  -- `_send_email_sync`
  unfoldable pub send_email : Text → Task
  unfolding email_message outside
  send_email message =
      if (is_empty config.email.smtp_host
        || is_empty config.email.from_addr
        || is_empty config.email.to)
      then pure tt
      else outside (do
        channels.smtp config.email.smtp_host config.email.smtp_port
        channels.starttls
        (if is_empty config.email.smtp_user
            then pure tt
            else channels.login config.email.smtp_user config.email.smtp_password)
        channels.send_message (email_message message))

  unfoldable pub send_script_notification : Text → Text → Text → ℕ → Task
  unfolding outside run new_runner
  send_script_notification event email message duration_seconds =
      try_except
        (do
          outside (
              run processes (new_runner config.script.timeout_seconds) config.script.notify_command
                ((codes "action", text (codes "notify"))
                  ∷ (codes "event", text event)
                  ∷ (codes "email", text email)
                  ∷ (codes "message", text message)
                  ∷ (codes "duration_seconds", number duration_seconds)
                  ∷ []))
          pure tt)
        (λ exc. pure tt)

  abbrev pub enabled : Bool → Task → List Task → List Task
  enabled on task tasks = if on then task ∷ tasks else tasks

  unfoldable pub dispatch_builtin_notifications : Text → Task
  unfolding gather send_telegram send_discord send_email
  dispatch_builtin_notifications message = gather (
      enabled config.telegram.enable (send_telegram message) (
        enabled config.discord.enable (send_discord message)
          (enabled config.email.enable (send_email message) [])))

  -- The channels and, where there is a command, the script.
  unfoldable pub notify : Text → Text → Text → ℕ → Task
  unfolding dispatch_builtin_notifications send_script_notification gather
  notify event email message duration_seconds = gather (
      dispatch_builtin_notifications message
      ∷ enabled (not (is_empty config.script.notify_command))
          (send_script_notification event email message duration_seconds) [])

  unfoldable pub notify_rate_limit : Text → Text → Task
  unfolding notify
  notify_rate_limit email message = notify (codes "rate_limit") email message 0

  unfoldable pub notify_user_locked : Text → ℕ → Task
  unfolding notify
  notify_user_locked email duration_seconds =
      notify (codes "locked") email
        (codes "User account locked: "
          ++ (email
              ++ (codes " for "
                  ++ (decimal duration_seconds ++ codes "s due to rate limit violation"))))
        duration_seconds

  unfoldable pub notify_user_unlocked : Text → Task
  unfolding notify
  notify_user_unlocked email =
      notify (codes "unlocked") email (codes "User account unlocked: " ++ email) 0
