-- ===== src/OAuth/Metadata.antt =====
-- The two metadata documents of src/oauth.rs, and the URL by which a client finds the first.
use local_mcp.Common.{◌++◌}
use local_mcp.Common.Str.{Str, bytes}
use local_mcp.Json.{Json, string, object, close, field}
use local_mcp.OAuth.{OAuth, one}

-- `MOUNT_PATH` of src/main.rs
abbrev pub mount_path : Str
mount_path = bytes "/local"

unfoldable pub protected_resource : OAuth → Json
protected_resource oauth = object (
    field (bytes "resource") (string (oauth.issuer ++ mount_path)) (
      field (bytes "authorization_servers") (one oauth.issuer)
        (field (bytes "bearer_methods_supported") (one (bytes "header")) close)))

unfoldable pub authorization_server : OAuth → Json
authorization_server oauth = object (
    field (bytes "issuer") (string oauth.issuer) (
      field (bytes "authorization_endpoint") (string (oauth.issuer ++ bytes "/authorize")) (
        field (bytes "token_endpoint") (string (oauth.issuer ++ bytes "/token")) (
          field (bytes "registration_endpoint") (string (oauth.issuer ++ bytes "/register")) (
            field (bytes "response_types_supported") (one (bytes "code")) (
              field (bytes "grant_types_supported") (one (bytes "authorization_code")) (
                field (bytes "code_challenge_methods_supported") (one (bytes "S256")) (
                  field (bytes "token_endpoint_auth_methods_supported") (one (bytes "none"))
                    (field (bytes "scopes_supported") (one (bytes "mcp")) close)))))))))
