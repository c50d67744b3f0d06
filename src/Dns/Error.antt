-- ===== src/Dns/Error.antt =====
-- dns/error.go: the errors of a resolution.
use aoni.Base.{ℕ, Bool, true, false}
use aoni.Base.Text.{Text}

-- dns_error is net.DNSError with IsNotFound and IsTimeout, resolution is ResolutionError with the
-- host, the resolver's name, its endpoint, the cause and IsTimeout, wrapped is an error of fmt.Errorf
-- with a cause, and other one without, which may be a timeout.
pub data DnsError : Type 0 where
  nxdomain no_data no_resolvers_configured empty_records : DnsError
  dns_error : Bool → Bool → DnsError
  other : ℕ → Bool → DnsError
  wrapped : DnsError → DnsError
  resolution : Text → Text → Text → DnsError → Bool → DnsError

unfoldable pub is_not_found : DnsError → Bool
is_not_found nxdomain = true
is_not_found no_data = true
is_not_found no_resolvers_configured = false
is_not_found empty_records = false
is_not_found (dns_error not_found timeout) = not_found
is_not_found (other k timeout) = false
is_not_found (wrapped e) = is_not_found e
is_not_found (resolution host resolver endpoint e timeout) = is_not_found e

unfoldable pub is_nxdomain : DnsError → Bool
is_nxdomain nxdomain = true
is_nxdomain no_data = false
is_nxdomain no_resolvers_configured = false
is_nxdomain empty_records = false
is_nxdomain (dns_error not_found timeout) = not_found
is_nxdomain (other k timeout) = false
is_nxdomain (wrapped e) = is_nxdomain e
is_nxdomain (resolution host resolver endpoint e timeout) = is_nxdomain e

-- What the first net.Error of the chain says of itself.
abbrev pub is_timeout : DnsError → Bool
is_timeout nxdomain = false
is_timeout no_data = false
is_timeout no_resolvers_configured = false
is_timeout empty_records = false
is_timeout (dns_error not_found timeout) = timeout
is_timeout (other k timeout) = timeout
is_timeout (wrapped e) = is_timeout e
is_timeout (resolution host resolver endpoint e timeout) = timeout

abbrev pub wrap_dns_error : Text → Text → Text → DnsError → DnsError
wrap_dns_error host resolver endpoint e = resolution host resolver endpoint e (is_timeout e)
