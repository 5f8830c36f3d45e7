-- ===== src/OAuth/Page.antt =====
-- The consent page: `escape` and `consent_page` of src/oauth.rs.
pub mod Escape
mod Examples
use local_mcp.Common.{ℕ, Bool, Option, none, some, List, [], ◌∷◌, ◌++◌, ◌==◌, if◌then◌else◌}
use local_mcp.Common.Str.{Str, bytes}

-- `value.replace(c, with)` for an ASCII character `c`.
unfoldable pub replace_byte : ℕ → Str → Str → Str
replace_byte c with [] = []
replace_byte c with (b ∷ s) =
    let rest = replace_byte c with s in if b == c then with ++ rest else b ∷ rest

unfoldable pub escape : Str → Str
unfolding replace_byte
escape value = replace_byte b'"' (bytes "&quot;") (
    replace_byte b'>' (bytes "&gt;")
      (replace_byte b'<' (bytes "&lt;") (replace_byte b'&' (bytes "&amp;") value)))

-- `AuthorizeParams`
pub record AuthorizeParams : Type 0 where
  pub client_id : Str
  pub redirect_uri : Str
  pub state : Str
  pub code_challenge : Str
  pub code_challenge_method : Str

-- The template up to the message, line by line.
unfoldable pub page_head : Str
page_head =
    bytes "<!doctype html>\n<html lang=\"en\">\n<head>\n<meta charset=\"utf-8\">\n"
    ++ bytes "<meta name=\"viewport\" content=\"width=device-width, initial-scale=1\">\n"
    ++ bytes "<title>Authorize local-mcp</title>\n<style>\n"
    ++ bytes "  :root { color-scheme: light dark; }\n"
    ++ bytes "  body { font: 16px/1.5 system-ui, sans-serif; display: grid; place-items: center;\n"
    ++ bytes "         min-height: 100vh; margin: 0; padding: 1rem; }\n"
    ++ bytes "  form { width: 100%; max-width: 26rem; }\n"
    ++ bytes "  h1 { font-size: 1.25rem; margin-bottom: .25rem; }\n"
    ++ bytes "  p { margin: .25rem 0 1rem; opacity: .8; }\n"
    ++ bytes "  .error { color: #b00020; opacity: 1; }\n"
    ++ bytes "  input { width: 100%; padding: .6rem; font: inherit; box-sizing: border-box; }\n"
    ++ bytes "  button { margin-top: 1rem; width: 100%; padding: .6rem; font: inherit; "
    ++ bytes "cursor: pointer; }\n"
    ++ bytes "</style>\n</head>\n<body>\n<form method=\"post\" action=\"/authorize\">\n"
    ++ bytes "  <h1>Authorize access</h1>\n"
    ++ bytes "  <p>A client is asking to read and edit files through local-mcp.\n"
    ++ bytes "     Enter the server token to allow it.</p>\n  "

-- A hidden field of the form.
abbrev pub hidden : Str → Str → Str
hidden name value =
    bytes "  <input type=\"hidden\" name=\""
    ++ name
    ++ bytes "\" value=\""
    ++ value
    ++ bytes "\">\n"

unfoldable pub page_tail : Str
page_tail =
    bytes "  <input type=\"hidden\" name=\"code_challenge_method\" value=\"S256\">\n"
    ++ bytes "  <input type=\"password\" name=\"token\" placeholder=\"Server token\" "
    ++ bytes "autofocus required>\n"
    ++ bytes "  <button type=\"submit\">Allow</button>\n</form>\n</body>\n</html>"

abbrev pub message : Option Str → Str
message none = []
message (some e) = bytes "<p class=\"error\">" ++ escape e ++ bytes "</p>"

unfoldable pub consent_page : AuthorizeParams → Option Str → Str
consent_page params error =
    page_head
    ++ message error
    ++ bytes "\n"
    ++ hidden (bytes "client_id") (escape params.client_id)
    ++ hidden (bytes "redirect_uri") (escape params.redirect_uri)
    ++ hidden (bytes "state") (escape params.state)
    ++ hidden (bytes "code_challenge") (escape params.code_challenge)
    ++ page_tail
