-- ===== src/Email.antt =====
-- src/core/queues: the worker that sends the queued e-mails, and what it does with a job that failed.
pub mod Escape
pub mod DeadLetters
mod Tests
use Prim.Native.String
use Prim.Native.Char.{Char, code}
use nest_nexus.Prelude.{
  ℕ, String, Bool, true, false, not, Option, none, some, List, [], ◌∷◌, ◌++◌, ◌==◌, nat_eq,
  if◌then◌else◌, or_else, leb, truthy,
}
use nest_nexus.Exec.{other, Result, ok, err, Exec, pure, throw}
use nest_nexus.Schema.{MagicLinkEmail}

-- `value.replace(/c/g, text)` for a single character.
abbrev pub replace_all : ℕ → String → String → String
replace_all target text String.[] = String.[]
replace_all target text (String.◌∷◌ c s) =
    let rest = replace_all target text s in
    if code c == target then String.◌++◌ text rest else String.◌∷◌ c rest

unfoldable pub escape_html : String → String
escape_html value = replace_all b'\'' "&#39;" (
    replace_all b'"' "&quot;"
      (replace_all b'>' "&gt;" (replace_all b'<' "&lt;" (replace_all b'&' "&amp;" value))))

-- src/core/queues/dto/email.job.dto.ts
pub record WelcomeEmail : Type 0 where
  pub to : String
  pub display_name : String

pub record PasswordResetEmail : Type 0 where
  pub to : String
  pub display_name : String
  pub reset_url : String
  pub expires_in_minutes : ℕ

pub record EmailVerification : Type 0 where
  pub to : String
  pub display_name : String
  pub verification_url : String

pub record TwoFactorCode : Type 0 where
  pub to : String
  pub display_name : String
  pub code : String
  pub expires_in_minutes : ℕ

-- The data of a job, by the job's name. Only the magic link is sent; the others are logged.
pub data EmailJob : Type 0 where
  welcome : WelcomeEmail → EmailJob
  password_reset : PasswordResetEmail → EmailJob
  email_verification : EmailVerification → EmailJob
  two_factor_code : TwoFactorCode → EmailJob
  magic_link : MagicLinkEmail → EmailJob
  unknown : String → EmailJob

abbrev pub job_name : EmailJob → String
job_name (welcome data_) = "welcome"
job_name (password_reset data_) = "password-reset"
job_name (email_verification data_) = "email-verification"
job_name (two_factor_code data_) = "two-factor-code"
job_name (magic_link data_) = "magic-link"
job_name (unknown name) = name

-- A job of BullMQ, with the attempts that it asks for.
pub record Job : Type 0 where
  pub queue_name : String
  pub id : String
  pub email : EmailJob
  pub attempts : Option ℕ

pub record Mail : Type 0 where
  pub to : String
  pub subject : String
  pub text : String
  pub html : String

pub record Envelope : Type 0 where
  pub from : Option String
  pub mail : Mail

-- src/core/queues/dead-letter.service.ts: what is logged of a job that failed for good, without the
-- time and the stack.
pub record DeadLetter : Type 0 where
  pub queue : String
  pub job_id : String
  pub job_name : String
  pub attempts_made : ℕ
  pub failed_reason : String

-- The message to the webhook, without the colour of its attachment.
pub record Alert : Type 0 where
  pub url : String
  pub text : String
  pub attachment : String
  pub payload : DeadLetter

-- What the worker leaves behind: the mails it sent, the dead letters it logged, and the alerts it
-- tried to post.
pub record Outbox : Type 0 where
  pub sent : List Envelope
  pub dead_letters : List DeadLetter
  pub posted : List Alert

-- The mail server, when one is configured; sending may throw.
abbrev pub Transporter : Type 0
Transporter = Option (Envelope → Result (Unit {0}))

unfoldable pub magic_link_mail : (ℕ → String) → MagicLinkEmail → Mail
unfolding escape_html
magic_link_mail show data_ = record {
  to = data_.to;
  subject = "Your nest-nexus login link";
  text = String.◌++◌ "Hi " (
      String.◌++◌ data_.display_name (
        String.◌++◌ ",\n\nClick to log in: " (
          String.◌++◌ data_.magic_link (
            String.◌++◌ "\n\nThis link expires in " (
              String.◌++◌ (show data_.expires_in_minutes)
                " minutes and can only be used once.")))));
  html = String.◌++◌ "<p>Hi " (
      String.◌++◌ (escape_html data_.display_name) (
        String.◌++◌ ",</p><p><a href=\"" (
          String.◌++◌ data_.magic_link (
            String.◌++◌ "\">Click to log in</a></p><p>This link expires in " (
              String.◌++◌ (show data_.expires_in_minutes)
                " minutes and can only be used once.</p>")))));
}

abbrev pub delivered : Envelope → Outbox → Result (Unit {0}) → Result (Unit {0}) × Outbox
delivered mail s (ok a) = (ok a, record s { sent = s.sent ++ mail ∷ [] })
delivered mail s (err e) = (err e, s)

-- src/core/mailer/mailer.service.ts. A failure of the mail server is not caught.
abbrev pub is_configured : Transporter → Bool
is_configured none = false
is_configured (some send_mail) = true

unfoldable pub send : Transporter → Option String → Mail → Exec Outbox (Unit {0})
send none smtp_from mail s = (ok tt, s)
send (some send_mail) smtp_from mail s =
    let envelope : Envelope = record { from = smtp_from; mail = mail } in
    delivered envelope s (send_mail envelope)

unfoldable pub send_magic_link :
    Transporter → Option String → (ℕ → String) → MagicLinkEmail → Exec Outbox (Unit {0})
unfolding send magic_link_mail
send_magic_link transporter smtp_from show data_ =
    if not (is_configured transporter)
    then pure tt
    else send transporter smtp_from (magic_link_mail show data_)

unfoldable pub process :
    Transporter → Option String → (ℕ → String) → EmailJob → Exec Outbox (Unit {0})
unfolding send_magic_link
process transporter smtp_from show (welcome data_) = pure tt
process transporter smtp_from show (password_reset data_) = pure tt
process transporter smtp_from show (email_verification data_) = pure tt
process transporter smtp_from show (two_factor_code data_) = pure tt
process transporter smtp_from show (magic_link data_) =
    send_magic_link transporter smtp_from show data_
process transporter smtp_from show (unknown name) =
    throw (other (String.◌++◌ "Unknown email job name: " name))

abbrev pub default_job_attempts : ℕ
default_job_attempts = 3

abbrev pub dead_letter : Job → String → ℕ → DeadLetter
dead_letter job error attempts_made = record {
  queue = job.queue_name;
  job_id = job.id;
  job_name = job_name job.email;
  attempts_made = attempts_made;
  failed_reason = error;
}

abbrev pub alert : String → Job → String → ℕ → Alert
alert url job error attempts_made = record {
  url = url;
  text = String.◌++◌ "🚨 Dead-letter job: *" (
      String.◌++◌ (job_name job.email)
        (String.◌++◌ "* in queue *" (String.◌++◌ job.queue_name "*")));
  attachment = error;
  payload = dead_letter job error attempts_made;
}

-- An empty address is none.
abbrev pub alerts : Option String → Job → String → ℕ → List Alert
alerts none job error attempts_made = []
alerts (some url) job error attempts_made =
    if truthy (some url) then alert url job error attempts_made ∷ [] else []

-- A post that fails is only logged.
unfoldable pub handle_failed_job : Option String → Job → String → ℕ → Outbox → Outbox
handle_failed_job webhook_url job error attempts_made s = record s {
  dead_letters = s.dead_letters ++ dead_letter job error attempts_made ∷ [];
  posted = s.posted ++ alerts webhook_url job error attempts_made;
}

-- `onFailed`, for the attempts that the job has had. A job that is gone is passed over.
unfoldable pub on_failed : Option String → Option Job → String → ℕ → Outbox → Outbox
on_failed webhook_url none error attempts_made s = s
on_failed webhook_url (some job) error attempts_made s =
    if leb (or_else job.attempts default_job_attempts) attempts_made
    then handle_failed_job webhook_url job error attempts_made s
    else s
