-- ===== src/Server/New.antt =====
-- New and setCookie of internal/server/server.go: the page is rendered once, and the reverse proxy is set up.
use gowait.Prelude.{String, Bool, true, List, map}
use gowait.Results.{Result, ok, error}
use gowait.Config.{Config}
use gowait.Waitpage.{Options, Templates, RenderError, render}
use gowait.Proxy
use gowait.Proxy.{HttpUtil, ReverseProxy}
use gowait.Ticket.{Bytes}
use gowait.Ticket.Signer.{Signer}
use gowait.Server.Http.{bytes, CookieName, ticket_cookie, admin_cookie, Response, Settings}

-- Server, apart from the controller, the clock and the registry, which are arguments of the handlers.
pub record Server (R H : Type 0) : Type 0 where
  pub settings : Settings
  pub cookie_secure : Bool
  pub signer : Signer
  pub backend : ReverseProxy R H

pub data SameSite : Type 0 where
  lax : SameSite

pub record Cookie : Type 0 where
  pub name : String
  pub value : Bytes
  pub path : String
  pub http_only : Bool
  pub same_site : SameSite
  pub secure : Bool

abbrev pub cookie_name : CookieName → String
cookie_name ticket_cookie = "gowait_ticket"
cookie_name admin_cookie = "gowait_admin"

-- The cookie that http.SetCookie writes, from its name and its signed value.
unfoldable pub cookie : Bool → CookieName × Bytes → Cookie
cookie cookie_secure (name, value) = record {
  name = cookie_name name;
  value = value;
  path = "/";
  http_only = true;
  same_site = lax;
  secure = cookie_secure;
}

-- The options of the waiting page.
abbrev pub page_options : Config → Options
page_options c = record {
  poll_interval = c.poll_interval;
  lang = c.wait_lang;
  title = c.wait_title;
  brand = c.wait_brand;
  message = c.wait_message;
  template_path = c.wait_template;
}

module _ {R H : Type 0} (u : HttpUtil R H) where
  -- The server with the page that is rendered.
  abbrev pub with_page : Config → Signer → Bytes → Server R H
  with_page c signer html = record {
    settings = record {
      admin_key = bytes c.admin_key;
      poll_interval = c.poll_interval;
      metrics = c.metrics;
      wait_html = html;
    };
    cookie_secure = c.cookie_secure;
    signer = signer;
    backend = Proxy.new u c.backend_url c.preserve_host;
  }

  unfoldable pub new :
      {T : Type 0} → Templates T Bytes → Config → Signer → Result RenderError (Server R H)
  unfolding render Proxy.new
  new ts c signer = elim (render ts (page_options c)) [
    | error e ↦ error e
    | ok html ↦ ok (with_page c signer html)
  ]

-- The cookies of a response, as they are written.
abbrev pub written_cookies : {R H F : Type 0} → Server R H → Response F → List Cookie
written_cookies srv resp = map (cookie srv.cookie_secure) resp.cookies
