-- ===== src/Account/Captcha/Reply.antt =====
-- Which of Google's answers `passed_captcha` accepts.
use kin_app_server.Common.{
  ℕ, ◌+◌, ◌*◌, ◌≤◌, ◌≡◌, ◌↔◌, true, false, Option, none, some, arith, eq_iff, Option-cases, inl,
  inr,
}
use kin_app_server.Account.Captcha.{CaptchaConfig, CaptchaReply, second, passed_captcha}

-- The answer to a genuine token of this app whose challenge was met at the time `ts`.
abbrev pub genuine : CaptchaConfig → ℕ → Option CaptchaReply
genuine c ts = some (record {
  apk_package_name = some c.apk_package_name;
  challenge_ts = some ts;
  success = some true;
})

-- The challenge has a time, not further in the future than the threshold.
abbrev pub IsTimely : CaptchaConfig → ℕ → Option ℕ → Type 0
IsTimely c now none = false ≡ true
IsTimely c now (some ts) = ts ≤ now + c.captcha_stale_threshold_secs * second

-- Outside of debug mode an answer passes exactly when it has all its fields, names this app, says
-- success, and its challenge is not further in the future than the threshold.
pub passed_captcha_iff :
    (c : CaptchaConfig) (now : ℕ) (r : CaptchaReply)
    → c.debug ≡ false
    → (passed_captcha c now (some r) ≡ true)
      ↔ (r.apk_package_name ≡ some c.apk_package_name)
        × (r.success ≡ some true)
        × IsTimely c now r.challenge_ts
unfolding passed_captcha
passed_captcha_iff c now r h = elim (Option-cases r.apk_package_name) [
  | inl n ↦ ground (arith, h, n)
  | inr (apk, n) ↦ elim (Option-cases r.challenge_ts) [
    | inl m ↦ ground (arith, h, n, m)
    | inr (ts, m) ↦ ground (arith, h, n, m, eq_iff apk c.apk_package_name)
  ]
]

-- The age of a token is never looked at: outside of debug mode a genuine answer passes at every
-- time from its challenge on, however small the threshold of staleness is.
pub passed_captcha-ageless :
    (c : CaptchaConfig) (ts age : ℕ)
    → c.debug ≡ false
    → passed_captcha c (ts + age) (genuine c ts) ≡ true
unfolding passed_captcha
passed_captcha-ageless c ts age h = ground (arith, h, eq_iff c.apk_package_name c.apk_package_name)
