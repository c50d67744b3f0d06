-- ===== src/Proxy/Router.antt =====
-- proxy/proxy.go: the router of domains, which is the trie of trie/domain.go with a nil check.
use aoni.Base.{List, Option, none, some}
use aoni.Base.Text.{Text}
use aoni.Trie.{Node, insert, match}

-- Proxy URLs are V; a router that is nil, or whose trie is nil, is none.
module _ {ℓ} {V : Type ℓ} (scan_tokens : Text → List Text) where
  unfoldable pub add_route : Text → V → Option (Node V) → Option (Node V)
  add_route pattern proxy_url none = none
  add_route pattern proxy_url (some rt) = some (insert scan_tokens pattern proxy_url rt)

  unfoldable pub route_for_domain : Text → Option (Node V) → Option V
  route_for_domain domain none = none
  route_for_domain domain (some rt) = match scan_tokens domain rt
