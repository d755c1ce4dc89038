-- ===== src/Profile/Messages.antt =====
-- ProfileManagement.jsx: the short message, and answers that come late.
use hotel_ms.Common.{
  ℕ, zero, suc, ◌≡◌, refl, sym, ap, ◌∙◌, ltb, if◌then◌else◌, Bool, true, false, not, ◌⊎◌, inl, inr,
  List, [], ◌∷◌, Option, none, some, Text, codes, same, arith,
}
use hotel_ms.Profile.{
  Person, EditForm, Section, Page, flash, timer_ends, form_of, loaded, Answer, done, fails,
  handle_photo_change, photo_uploaded, photo_removed, handle_remove_photo, save_profile,
  profile_saved, save_pw, pw_changed, choose_section, cancel_edit, Event, step, run, detail_or,
  loads, photo_chosen, upload_ends, removal_ends, pw_ends, save_ends, remove_clicked, edit_clicked,
  cancel_clicked, save_clicked, pw_clicked, preferences_clicked, timer, section_clicked, form_typed,
  pw_typed,
}

-- At most one of the two messages is shown, and a timer is armed while one is.
pub record IsShown (s : Page) : Type 0 where
  pub one : (s.msg ≡ []) ⊎ (s.err ≡ [])
  pub timed : s.timers ≡ 0 → (s.msg ≡ []) × (s.err ≡ [])

flash-IsShown : (m : Text) (b : Bool) (s : Page) → IsShown (flash m b s)
unfolding flash
flash-IsShown m true s = record { one = inl refl; timed = λ h. absurd (omega arith) }
flash-IsShown m false s = record { one = inr refl; timed = λ h. absurd (omega arith) }

-- A change of other fields.
same_message :
    (s t : Page) → IsShown s → t.msg ≡ s.msg → t.err ≡ s.err → t.timers ≡ s.timers → IsShown t
same_message s t v e f g = record {
  one = elim v.one [ inl h ↦ inl (e ∙ h) | inr h ↦ inr (f ∙ h) ];
  timed = λ h. (e ∙ (v.timed (sym g ∙ h)).0, f ∙ (v.timed (sym g ∙ h)).1);
}

if-IsShown : (b : Bool) (s t : Page) → IsShown s → IsShown t → IsShown (if b then s else t)
if-IsShown true s t v w = v
if-IsShown false s t v w = w

timer-IsShown : (s : Page) → IsShown s → IsShown (timer_ends s)
unfolding timer_ends
timer-IsShown s v =
    elim s.timers
      as (λ n.
        IsShown (elim n [ zero ↦ s | suc k ↦ record s { msg = []; err = []; timers = k } ])) [
          | zero ↦ v
          | suc k ↦ record { one = inl refl; timed = λ h. (refl, refl) }
        ]

photo-IsShown : (a : Answer Text) (s : Page) → IsShown (photo_uploaded a s)
unfolding photo_uploaded flash
photo-IsShown (done x) s =
    same_message (flash (codes "Profile photo updated.") false s) _ (flash-IsShown _ false s) refl
      refl refl
photo-IsShown (fails d) s =
    same_message (flash (detail_or d (codes "Failed to upload photo.")) true s) _
      (flash-IsShown _ true s) refl refl refl

removed-IsShown : (a : Answer Text) (s : Page) → IsShown (photo_removed a s)
unfolding photo_removed flash
removed-IsShown (done x) s =
    same_message (flash (codes "Photo removed.") false s) _ (flash-IsShown _ false s) refl refl refl
removed-IsShown (fails d) s =
    same_message (flash (detail_or d (codes "Failed to remove photo.")) true s) _
      (flash-IsShown _ true s) refl refl refl

saved-IsShown : (a : Answer Person) (s : Page) → IsShown (profile_saved a s)
unfolding profile_saved flash
saved-IsShown (done x) s =
    same_message (flash (codes "Profile updated.") false s) _ (flash-IsShown _ false s) refl refl
      refl
saved-IsShown (fails d) s =
    same_message (flash (detail_or d (codes "Failed to update profile.")) true s) _
      (flash-IsShown _ true s) refl refl refl

changed-IsShown : (a : Answer Text) (s : Page) → IsShown (pw_changed a s)
unfolding pw_changed flash
changed-IsShown (done x) s =
    same_message (flash (codes "Password changed successfully.") false s) _
      (flash-IsShown _ false s) refl refl refl
changed-IsShown (fails d) s =
    same_message (flash (detail_or d (codes "Failed to change password.")) true s) _
      (flash-IsShown _ true s) refl refl refl

loaded-IsShown : (o : Option Person) (s : Page) → IsShown s → IsShown (loaded o s)
unfolding loaded
loaded-IsShown none s v = same_message s _ v refl refl refl
loaded-IsShown (some p) s v = same_message s _ v refl refl refl

step-IsShown : (e : Event) (s : Page) → IsShown s → IsShown (step e s)
unfolding step handle_photo_change handle_remove_photo save_profile save_pw choose_section
    cancel_edit
step-IsShown (loads p) s v = loaded-IsShown p s v
step-IsShown (photo_chosen size) s v =
    if-IsShown (ltb 5242880 size) _ _ (flash-IsShown (codes "Image must be under 5 MB.") true s)
      (same_message s _ v refl refl refl)
step-IsShown (upload_ends a) s v = photo-IsShown a s
step-IsShown (removal_ends a) s v = removed-IsShown a s
step-IsShown (pw_ends a) s v = changed-IsShown a s
step-IsShown (save_ends a) s v = saved-IsShown a s
step-IsShown remove_clicked s v = same_message s _ v refl refl refl
step-IsShown edit_clicked s v = same_message s _ v refl refl refl
step-IsShown cancel_clicked s v = same_message s _ v refl refl refl
step-IsShown save_clicked s v = if-IsShown s.saving s _ v (same_message s _ v refl refl refl)
step-IsShown pw_clicked s v = if-IsShown s.changing_pw s _ v (
    if-IsShown (not (same s.pw_form.new_password s.pw_form.confirm_password)) _ _
      (flash-IsShown (codes "Passwords do not match.") true s) (same_message s _ v refl refl refl))
step-IsShown preferences_clicked s v = flash-IsShown (codes "Preferences saved.") false s
step-IsShown timer s v = timer-IsShown s v
step-IsShown (section_clicked k) s v =
    flash-IsShown [] false (record s { section = k; editing = false })
step-IsShown (form_typed f) s v = same_message s _ v refl refl refl
step-IsShown (pw_typed f) s v = same_message s _ v refl refl refl

-- Whatever is clicked and answered, at most one of the two messages is shown, and while one is shown a
-- timer that will clear it is armed.
pub messages-IsShown : (es : List Event) (s : Page) → IsShown s → IsShown (run es s)
messages-IsShown [] s v = v
messages-IsShown (e ∷ es) s v = messages-IsShown es (step e s) (step-IsShown e s v)

-- The timer of an earlier message clears a later one, while the timer of that one is still armed: a
-- click on a section, which shows an empty message, is enough for the first.
pub earlier_timer_clears :
    (k : Section) (m : Text) (is_err : Bool) (s : Page)
    → s.timers ≡ 0
    → let t = timer_ends (flash m is_err (choose_section k s)) in
      (t.msg ≡ []) × (t.err ≡ []) × (t.timers ≡ 1)
unfolding timer_ends flash choose_section
earlier_timer_clears k m is_err s e =
    let t : ℕ → Page =
      λ n. timer_ends (flash m is_err (choose_section k (record s { timers = n }))) in
    (
      ap (λ n. (t n).msg) e ∙ first is_err,
      ap (λ n. (t n).err) e ∙ second is_err,
      ap (λ n. (t n).timers) e ∙ third is_err,
    )
  where
    first :
        (b : Bool) → (timer_ends (flash m b (choose_section k (record s { timers = 0 })))).msg ≡ []
    first true = refl
    first false = refl

    second :
        (b : Bool) → (timer_ends (flash m b (choose_section k (record s { timers = 0 })))).err ≡ []
    second true = refl
    second false = refl

    third :
        (b : Bool)
        → (timer_ends (flash m b (choose_section k (record s { timers = 0 })))).timers ≡ 1
    third true = refl
    third false = refl

-- What is typed into the form before the profile has come is lost when it comes.
pub late_profile_overwrites_edits :
    (p : Person) (f : EditForm) (s : Page)
    → (run (form_typed f ∷ loads (some p) ∷ []) s).edit_form ≡ form_of p
unfolding step loaded
late_profile_overwrites_edits p f s = refl
