-- ===== src/Http/Pages.antt =====
-- gateway/internal/http/pages.go: the pages, and who is sent where. The text of the login page is
-- not modelled.
use vkr.Prelude.{◌≡◌, not, ◌⊎◌, inl, inr, true, [], none, some, if◌then◌else◌, arith}
use vkr.Prelude.Int.{negsuc}
use vkr.Prelude.Text.{Text, str, eq_text}
use vkr.Prelude.Result.{ok, err, Result-cases}
use vkr.Http.{
  Request, Response, redirect, http_error, json, login_page, html, Env, Handler, Input, not_allowed,
}
use vkr.Http.Session.{user_from_request}

module _ {F32 F64 : Type 0} (env : Env F32 F64) (h : Handler) (input : Input) where
  unfoldable pub handle_root : Request → Response F64
  handle_root r =
      if not (eq_text r.path (str "/"))
      then http_error (str "404 page not found") 404
      else elim (user_from_request env h input r) [
        | ok user ↦ redirect (str "/panel") none
        | err e ↦ redirect (str "/login") none
      ]

  unfoldable pub handle_login_page : Request → Response F64
  handle_login_page r =
      if not (eq_text r.method (str "GET"))
      then http_error not_allowed 405
      else elim (user_from_request env h input r) [
        | ok user ↦ redirect (str "/panel") none
        | err e ↦ json login_page
      ]

  unfoldable pub handle_panel_page : Text → Request → Response F64
  handle_panel_page panel_html r =
      if not (eq_text r.method (str "GET"))
      then http_error not_allowed 405
      else elim (user_from_request env h input r) [
        | ok user ↦ json (html panel_html)
        | err e ↦ redirect (str "/login") none
      ]

  -- The cookie is emptied, with a maximal age of -1.
  unfoldable pub handle_logout : Request → Response F64
  handle_logout r = redirect (str "/login") (some (record { value = []; max_age = negsuc 0 }))

  -- The pages never send a browser in a circle: a GET that the panel redirects to the login page gets
  -- that page there, one that the login page redirects to the panel gets the panel, and the root
  -- redirects to the one of the two that answers with a page.
  pub pages-settle :
      (panel_html : Text) (r : Request)
      → eq_text r.method (str "GET") ≡ true
      → eq_text r.path (str "/") ≡ true
      → ((handle_root r ≡ redirect (str "/panel") none)
          × (handle_panel_page panel_html r ≡ json (html panel_html))
          × (handle_login_page r ≡ redirect (str "/panel") none))
        ⊎ ((handle_root r ≡ redirect (str "/login") none)
            × (handle_panel_page panel_html r ≡ redirect (str "/login") none)
            × (handle_login_page r ≡ json login_page))
  unfolding handle_root handle_panel_page handle_login_page
  pages-settle panel_html r get root = elim (Result-cases (user_from_request env h input r)) [
    | inl (user, known) ↦ inl (ground (arith, known), ground (arith, known), ground (arith, known))
    | inr (e, unknown) ↦
        inr (ground (arith, unknown), ground (arith, unknown), ground (arith, unknown))
  ]
