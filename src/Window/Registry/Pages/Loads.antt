-- ===== src/Window/Registry/Pages/Loads.antt =====
-- How the loads of one page follow each other (portus-window/src/window_core.rs).
use portus_window.Base.{
  ℕ, ◌≤◌, ◌<◌, ◌≡◌, refl, ap, inl, inr, true, false, none, some, arith, Text, text_eq, text_eq-eq,
  text_eq_refl, length, Bool-cases,
}
use portus_window.Protocol.Limits.{max_url_chars, max_load_error_chars}
use portus_window.Protocol.Windows.{ActiveWindow, LoadState}
use portus_window.Window.Bounded.{truncate_chars}
use portus_window.Window.Bounded.Laws.{length-truncate_chars}
use portus_window.Window.Registry.Pages.{
  is_web_source, is_web_page, is_failed, is_text, page_started, page_finished, page_failed,
}

page_source : (w : ActiveWindow) → is_web_page w ≡ true → is_web_source w ≡ true
unfolding is_web_page
page_source w h = ground arith

-- What a failure makes of a page.
abbrev failed_page : Text → Text → ActiveWindow → ActiveWindow
failed_page url error w = record w {
  load_state = LoadState.failed;
  load_error = some (truncate_chars error max_load_error_chars);
  current_url = some (truncate_chars url max_url_chars);
}

page_failed-page :
    (url error : Text) (w : ActiveWindow)
    → is_web_page w ≡ true
    → page_failed url error w ≡ failed_page url error w
unfolding page_failed
page_failed-page url error w h = rw (page_source w h) refl

is_web_page-failed :
    (url error : Text) (w : ActiveWindow) → is_web_page (failed_page url error w) ≡ is_web_page w
unfolding is_web_page is_web_source
is_web_page-failed url error w = refl

finished_failed :
    (url again error : Text) (w : ActiveWindow)
    → is_web_page w ≡ true
    → page_finished again (failed_page url error w) ≡ failed_page url error w
unfolding page_finished is_failed
finished_failed url again error w h = rw (is_web_page-failed url error w, h) refl

truncate_short : (t : Text) (n : ℕ) → length t ≤ n → truncate_chars t n ≡ t
unfolding truncate_chars
truncate_short t n h = ground arith

started_failed :
    (url error : Text) (w : ActiveWindow)
    → length url ≤ max_url_chars
    → is_web_page w ≡ true
    → page_started url (failed_page url error w) ≡ failed_page url error w
unfolding page_started is_failed is_text
started_failed url error w short h =
    rw (is_web_page-failed url error w, h, truncate_short url max_url_chars short, text_eq_refl url)
      refl

-- A page whose load has failed stays as it is when it says that it has finished, and when it starts
-- the same URL again, of at most 4096 characters, as web views do for their error pages.
pub page_failed-stays :
    (url again error : Text) (w : ActiveWindow)
    → length url ≤ max_url_chars
    → is_web_page w ≡ true
    → let failed = page_failed url error w in
      (page_finished again failed ≡ failed) × (page_started url failed ≡ failed)
page_failed-stays url again error w short h =
    rw (page_failed-page url error w h)
      (finished_failed url again error w h, started_failed url error w short h)

cut_ne : (t : Text) → max_url_chars < length t → text_eq (truncate_chars t max_url_chars) t ≡ false
cut_ne t h = elim (Bool-cases (text_eq (truncate_chars t max_url_chars) t)) [
  | inl same ↦
      let e = text_eq-eq _ _ same in
      absurd (omega (arith, ap length e, length-truncate_chars t max_url_chars))
  | inr other ↦ other
]

restarted :
    (url error : Text) (w : ActiveWindow)
    → max_url_chars < length url
    → is_web_page w ≡ true
    → let again = page_started url (failed_page url error w) in
      (again.load_state ≡ LoadState.started) × (again.load_error ≡ none)
unfolding page_started is_failed is_text
restarted url error w long h = rw (is_web_page-failed url error w, h, cut_ne url long) (refl, refl)

-- A longer URL is not recognised: the page that has failed counts as loading again, without error.
pub page_failed-forgotten :
    (url error : Text) (w : ActiveWindow)
    → max_url_chars < length url
    → is_web_page w ≡ true
    → let again = page_started url (page_failed url error w) in
      (again.load_state ≡ LoadState.started) × (again.load_error ≡ none)
page_failed-forgotten url error w long h =
    rw (page_failed-page url error w h) (restarted url error w long h)
