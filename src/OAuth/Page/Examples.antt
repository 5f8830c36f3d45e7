-- ===== src/OAuth/Page/Examples.antt =====
-- The escaping of markup.
use local_mcp.Common.{◌≡◌, refl, none}
use local_mcp.Common.Str.{bytes}
use local_mcp.OAuth.Page.{AuthorizeParams, escape, replace_byte, consent_page}
use local_mcp.OAuth.Page.Escape.{markup, consent_page-markup}

escape_run : escape (bytes "<a b=\"&\">") ≡ bytes "&lt;a b=&quot;&amp;&quot;&gt;"
unfolding escape replace_byte
escape_run = refl

-- A client that tries to bring in markup, and one that does not.
abbrev plain : AuthorizeParams
plain = record {
  client_id = bytes "c";
  redirect_uri = bytes "https://a";
  state = bytes "s";
  code_challenge = bytes "x";
  code_challenge_method = bytes "S256";
}

abbrev hostile : AuthorizeParams
hostile = record plain { state = bytes "\"><script>" }

consent_page-markup_example : markup (consent_page hostile none) ≡ markup (consent_page plain none)
consent_page-markup_example = consent_page-markup hostile plain none none refl
