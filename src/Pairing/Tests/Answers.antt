-- ===== src/Pairing/Tests/Answers.antt =====
-- The link of pcside/daemon/src/pairing.rs at concrete inputs.
use linux_fingerprint_r.Prelude.{
  ◌≡◌, refl, none, some, [], ◌∷◌, codes, eq, ok, err, split_once, starts_with,
}
use linux_fingerprint_r.Disk.{done, failed}
use linux_fingerprint_r.Pairing.{link, no_reply, no_sync}
use linux_fingerprint_r.Pairing.Link.{
  take_line, read_reply, is_skipped, on_reply, await_line, await_sync, Exchange, cmd_labeled,
  open_link,
}
use linux_fingerprint_r.Pairing.Link.Replies.{Ends, cmd_labeled-Ends}
use linux_fingerprint_r.Sensor.Opening.Lines.{received}
use linux_fingerprint_r.Sensor.{chunk, silence, expired, trim_cr, weight}

-- News of the progress, an empty line and half of the answer in the first read.
abbrev talk : Exchange
talk = record {
  written = done;
  ended = done;
  flushed = done;
  arrivals = chunk (codes "PROGRESS wait\r\n\r\nOK pa") ∷ silence ∷ chunk (codes "ired\r\n") ∷ [];
}

skips_progress :
    cmd_labeled (λ t. t) (codes "pair 00") (codes "pair") talk ≡ some (ok (codes "OK paired"))
unfolding cmd_labeled await_line on_reply read_reply take_line trim_cr is_skipped split_once
    starts_with weight
skips_progress = refl

no_answer :
    cmd_labeled
      (λ t. t)
      (codes "pair 00")
      (codes "pair")
      (record talk { arrivals = silence ∷ expired ∷ [] })
    ≡ some (err (no_reply (codes "pair")))
unfolding cmd_labeled await_line on_reply read_reply take_line trim_cr is_skipped split_once
    starts_with weight
no_answer = refl

-- The first attempt sees the banner only; the second gets its pong.
second_attempt :
    open_link
      (λ t. t)
      (record talk { arrivals = chunk (codes "boot\n") ∷ expired ∷ chunk (codes "OK pong\n") ∷ [] }
        ∷ record talk { arrivals = chunk (codes "OK pong\n") ∷ [] }
        ∷ [])
      none
    ≡ some (ok tt)
unfolding open_link await_sync read_reply take_line trim_cr split_once weight eq
second_attempt = refl

never_synced :
    open_link (λ t. t) (record talk { arrivals = chunk (codes "boot\n") ∷ [] } ∷ []) none
    ≡ some (err (no_sync (some (codes "boot"))))
unfolding open_link await_sync read_reply take_line trim_cr split_once weight eq
never_synced = refl

unplugged :
    open_link (λ t. t) (record talk { flushed = failed 5 } ∷ talk ∷ []) none ≡ some (err (link 5))
unfolding open_link
unplugged = refl

cmd_labeled-Ends_example :
    Ends
      (λ t. t)
      (received talk.arrivals)
      (cmd_labeled (λ t. t) (codes "pair 00") (codes "pair") talk)
cmd_labeled-Ends_example = cmd_labeled-Ends (λ t. t) (codes "pair 00") (codes "pair") talk
