-- ===== src/Proxy.antt =====
-- internal/proxy/proxy.go. The requests of net/http/httputil and what SetURL and SetXForwarded make of them
-- are parameters.
use gowait.Prelude.{ℕ, String, Bool, if◌then◌else◌}

-- A request to the backend: the Host header, and the rest of it.
pub record Outbound (H : Type 0) : Type 0 where
  pub host : String
  pub rest : H

pub record ProxyRequest (R H : Type 0) : Type 0 where
  pub inbound : R
  pub out : Outbound H

pub record HttpUtil (R H : Type 0) : Type 0 where
  pub in_host : R → String
  pub set_url : String → ProxyRequest R H → ProxyRequest R H
  pub set_x_forwarded : ProxyRequest R H → ProxyRequest R H

-- An error page: the code, the content type and the text.
pub record ErrorPage : Type 0 where
  pub code : ℕ
  pub content_type : String
  pub body : String

pub record ReverseProxy (R H : Type 0) : Type 0 where
  pub rewrite : ProxyRequest R H → ProxyRequest R H
  pub error_handler : ErrorPage

module _ {R H : Type 0} (u : HttpUtil R H) where
  -- if preserveHost { r.Out.Host = host }
  abbrev pub set_host : Bool → String → ProxyRequest R H → ProxyRequest R H
  set_host preserve_host host r =
      if preserve_host then record r { out = record r.out { host = host } } else r

  unfoldable pub new : String → Bool → ReverseProxy R H
  new backend preserve_host = record {
    rewrite = λ r.
        (let host = u.in_host r.inbound in
          set_host preserve_host host (u.set_x_forwarded (u.set_url backend r)));
    error_handler = record {
      code = 502;
      content_type = "text/html; charset=utf-8";
      body =
          "<!doctype html><title>Backend unavailable</title><h1>502 — backend unavailable</h1><p>The service behind this waiting room is not responding. Please try again shortly.</p>";
    };
  }
