-- ===== src/Waitpage.antt =====
-- internal/waitpage/waitpage.go. The file system, html/template and the embedded wait.html are
-- parameters.
use gowait.Prelude.{
  String, Bool, true, false, Option, none, some, List, [], ◌∷◌, ℤ, pos, str_eq, if◌then◌else◌,
}
use gowait.Int64.{quot}
use gowait.Results.{Result, ok, error}
use gowait.Clock.{Duration}
use gowait.GoMap.{lookup}
pub mod Pages

pub record Options : Type 0 where
  pub poll_interval : Duration
  pub lang : String
  pub title : String
  pub brand : String
  pub message : String
  pub template_path : String

pub record Strings : Type 0 where
  pub title : String
  pub message : String
  pub eta_label : String
  pub notice : String
  pub less_minute : String
  pub minute : String
  pub minutes : String
  pub position : String
  pub updated : String

abbrev pub english : Strings
english = record {
  title = "You are in the waiting room";
  message =
      "Due to a high number of simultaneous connections, we invite you to wait in the queue. You will be let in automatically.";
  eta_label = "Your estimated wait time";
  notice =
      "Keep this page open. You will be redirected automatically to the service as soon as possible. Refreshing will not lose your place in line.";
  less_minute = "< 1 minute";
  minute = "minute";
  minutes = "minutes";
  position = "Position {pos} of {len} in the queue";
  updated = "Last updated at {time}";
}

abbrev pub french : Strings
french = record {
  title = "Vous êtes dans la salle d'attente";
  message =
      "En raison d'un grand nombre de connexions simultanées, nous vous invitons à patienter dans la file. Vous serez admis automatiquement.";
  eta_label = "Votre temps d'attente estimé";
  notice =
      "Gardez cette page ouverte. Vous serez redirigé automatiquement vers le service dès que possible. Actualiser ne vous fera pas perdre votre place dans la file.";
  less_minute = "< 1 minute";
  minute = "minute";
  minutes = "minutes";
  position = "Position {pos} sur {len} dans la file d'attente";
  updated = "Dernière mise à jour à {time}";
}

abbrev pub locales : List (String × Strings)
locales = ("en", english) ∷ ("fr", french) ∷ []

unfoldable pub supported_lang : String → Bool
unfolding lookup
supported_lang lang = elim (lookup lang locales) [ none ↦ false | some loc ↦ true ]

-- What the template is executed with.
pub record PageData : Type 0 where
  pub poll_ms : ℤ
  pub lang : String
  pub title : String
  pub brand : String
  pub message : String
  pub l : Strings

pub data RenderError : Type 0 where
  unsupported_language unreadable_template bad_template failed_execution : RenderError

-- os.ReadFile as a text, and Parse and Execute of html/template, each `none` for an error.
pub record Templates (T Page : Type 0) : Type 0 where
  pub read_file : String → Option String
  pub parse : String → Option T
  pub execute : T → PageData → Option Page
  -- wait.html
  pub embedded : String

-- if lang == "" { lang = "en" }
abbrev pub or_text : String → String → String
or_text text otherwise = if str_eq text "" then otherwise else text

unfoldable pub page_data : Options → String → Strings → PageData
page_data opts lang loc = record {
  -- opts.PollInterval.Milliseconds()
  poll_ms = quot opts.poll_interval (pos 1000000);
  lang = lang;
  title = or_text opts.title loc.title;
  brand = opts.brand;
  message = or_text opts.message loc.message;
  l = loc;
}

module _ {T Page : Type 0} (ts : Templates T Page) where
  -- The template's text.
  unfoldable pub template_source : Options → Option String
  template_source opts =
      if str_eq opts.template_path "" then some ts.embedded else ts.read_file opts.template_path

  unfoldable pub render_with : String → PageData → Result RenderError Page
  render_with src page = elim (ts.parse src) [
    | none ↦ error bad_template
    | some t ↦ elim (ts.execute t page) [ none ↦ error failed_execution | some html ↦ ok html ]
  ]

  -- Render, from the language that it takes.
  unfoldable pub render_in : Options → String → Result RenderError Page
  unfolding lookup template_source render_with page_data
  render_in opts lang = elim (lookup lang locales) [
    | none ↦ error unsupported_language
    | some loc ↦ elim (template_source opts) [
      | none ↦ error unreadable_template
      | some src ↦ render_with src (page_data opts lang loc)
    ]
  ]

  unfoldable pub render : Options → Result RenderError Page
  unfolding render_in
  render opts = render_in opts (or_text opts.lang "en")
