-- ===== src/Email/Tests.antt =====
-- Names and failures of sample jobs.
use nest_nexus.Prelude.{String, ◌≡◌, refl, Option, none, some, []}
use nest_nexus.Email.{welcome, Job, Outbox, escape_html}
use nest_nexus.Email.Escape.{escape_each, escape_html-eq-each}

escape_html-eq-each_example : escape_html "<a & 'b'>" ≡ escape_each "<a & 'b'>"
escape_html-eq-each_example = escape_html-eq-each "<a & 'b'>"

tag_escaped : escape_each "<a & 'b'>" ≡ "&lt;a &amp; &#39;b&#39;&gt;"
tag_escaped = refl

abbrev empty : Outbox
empty = record { sent = []; dead_letters = []; posted = [] }

abbrev greeting : Job
greeting = record {
  queue_name = "email";
  id = "7";
  email = welcome (record { to = "ada"; display_name = "Ada" });
  attempts = none;
}

abbrev hook : Option String
hook = some "https://alerts"
