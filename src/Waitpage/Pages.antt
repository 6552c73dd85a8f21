-- ===== src/Waitpage/Pages.antt =====
-- When a page is rendered, and with what.
use gowait.Prelude.{
  String, ◌≡◌, ◌≢◌, refl, ap, ◌∙◌, subst, true, none, some, inl, inr, arith, str_eq-cases,
  Option-cases,
}
use text.Mathlib.TextEquality.{eq_iff}
use gowait.Results.{error}
use gowait.GoMap.{lookup}
use gowait.Waitpage.{
  Options, Strings, english, french, unreadable_template, locales, supported_lang, PageData,
  Templates, or_text, page_data, template_source, render_with, render_in, render,
}

pub supported_lang-lookup :
    (lang : String)
    → supported_lang lang ≡ true
    → (loc : Strings) × (lookup lang locales ≡ some loc)
unfolding supported_lang
supported_lang-lookup lang h = elim (Option-cases (lookup lang locales)) [
  | inr found ↦ found
  | inl e ↦ absurd (ground (arith, e, h))
]

-- No supported language is the empty text.
pub supported_lang-ne-empty :
    (lang : String) → supported_lang lang ≡ true → or_text lang "en" ≡ lang
unfolding supported_lang lookup
supported_lang-ne-empty lang h = elim (str_eq-cases lang "") [
  | inl (b, e) ↦
      absurd (let g : supported_lang "" ≡ true = subst (λ l. supported_lang l ≡ true) e h in cc)
  | inr (b, n) ↦ rw b refl
]

or_text-ne-empty : (text otherwise : String) → otherwise ≢ "" → or_text text otherwise ≢ ""
or_text-ne-empty text otherwise h = elim (str_eq-cases text "") [
  | inl (b, e) ↦ rw b h
  | inr (b, n) ↦ rw b n
]

-- The texts of a page: in the language asked for, with no empty title or message.
pub record IsPage (opts : Options) (page : PageData) : Type 0 where
  pub lang : page.lang ≡ opts.lang
  pub localized : lookup opts.lang locales ≡ some page.l
  pub title : page.title ≢ ""
  pub message : page.message ≢ ""
  pub titled : opts.title ≢ "" → page.title ≡ opts.title
  pub told : opts.message ≢ "" → page.message ≡ opts.message
  pub brand : page.brand ≡ opts.brand

or_text_given : (text otherwise : String) → text ≢ "" → or_text text otherwise ≡ text
or_text_given text otherwise h = elim (str_eq-cases text "") [
  | inl (b, e) ↦ absurd (h e)
  | inr (b, n) ↦ rw b refl
]

-- Each locale has a title and a message.
locales_told :
    (lang : String) (loc : Strings)
    → lookup lang locales ≡ some loc
    → (loc.title ≢ "") × (loc.message ≢ "")
unfolding lookup
locales_told lang loc h = elim (str_eq-cases "en" lang) [
  | inl (b, e) ↦
      let same : english ≡ loc = ground (arith, b, h) in
      subst (λ l. (l.title ≢ "") × (l.message ≢ "")) same
        (ground (arith, eq_iff english.title ""), ground (arith, eq_iff english.message ""))
  | inr (b, n) ↦ elim (str_eq-cases "fr" lang) [
    | inl (d, e) ↦
        let same : french ≡ loc = ground (arith, b, d, h) in
        subst (λ l. (l.title ≢ "") × (l.message ≢ "")) same
          (ground (arith, eq_iff french.title ""), ground (arith, eq_iff french.message ""))
    | inr (d, m) ↦ absurd (ground (arith, b, d, h))
  ]
]

page_data-IsPage :
    (opts : Options) (loc : Strings)
    → lookup opts.lang locales ≡ some loc
    → IsPage opts (page_data opts opts.lang loc)
unfolding page_data
page_data-IsPage opts loc found =
    let (title, message) = locales_told opts.lang loc found in
    record {
      lang = refl;
      localized = found;
      title = or_text-ne-empty opts.title loc.title title;
      message = or_text-ne-empty opts.message loc.message message;
      titled = or_text_given opts.title loc.title;
      told = or_text_given opts.message loc.message;
      brand = refl;
    }

-- In a supported language a page is rendered from its template with such texts, unless the
-- template's file cannot be read.
pub render-IsPage :
    {T Page : Type 0} (ts : Templates T Page) (opts : Options)
    → supported_lang opts.lang ≡ true
    → (page : PageData) × IsPage opts page
      × (render ts opts ≡ elim (template_source ts opts) [
        | none ↦ error unreadable_template
        | some src ↦ render_with ts src page
      ])
unfolding render render_in
render-IsPage ts opts h =
    let (loc, found) = supported_lang-lookup opts.lang h in
    (
      page_data opts opts.lang loc,
      page_data-IsPage opts loc found,
      ap (render_in ts opts) (supported_lang-ne-empty opts.lang h) ∙ rw (render_in, found) refl,
    )
