-- ===== src/Tests/Requests.antt =====
-- The requests to GitHub at concrete inputs.
use github_webhook_monitor.Prelude.{pos, utf8_char, digit, str_int, ◌≡◌, refl}
use github_webhook_monitor.Integrations.GitHub.Requests.{
  is_unreserved, quote_bytes, hex_digit, quote, repository_redelivery_path,
}

quote_slash : quote "a/ü" ≡ "a%2F%C3%BC"
unfolding quote is_unreserved quote_bytes utf8_char hex_digit digit
quote_slash = refl

path :
    repository_redelivery_path "octo" "exa mple" (pos 123) (pos 40)
    ≡ "/repos/octo/exa%20mple/hooks/123/deliveries/40/attempts"
unfolding repository_redelivery_path quote is_unreserved quote_bytes utf8_char hex_digit digit
    str_int
path = refl
