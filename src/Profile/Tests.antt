-- ===== src/Profile/Tests.antt =====
-- The profile page on concrete inputs, and the theorems applied to it.
use hotel_ms.Common.{◌≡◌, refl, inl, false, [], ◌∷◌, codes}
use hotel_ms.Profile.{
  Person, Page, security, profile, empty_pw, form_of, completion_score, run, pw_typed, pw_clicked,
  section_clicked, timer,
}
use hotel_ms.Profile.Messages.{IsShown, messages-IsShown}

abbrev lola : Person
lola = record {
  full_name = codes "Lola";
  email = codes "l@x.uz";
  phone = [];
  photo_url = codes "/p.png";
}

completion_score-without_phone : completion_score lola ≡ 75
unfolding completion_score
completion_score-without_phone = refl

abbrev opened : Page
opened = record {
  section = profile;
  editing = false;
  person = lola;
  edit_form = form_of lola;
  pw_form = empty_pw;
  loading = false;
  saving = false;
  changing_pw = false;
  uploading_photo = false;
  msg = [];
  err = [];
  timers = 0;
}

messages-IsShown_example : IsShown (
    run
      (section_clicked security
        ∷ pw_typed (record empty_pw { new_password = codes "a" })
        ∷ pw_clicked
        ∷ timer
        ∷ [])
      opened)
messages-IsShown_example =
    messages-IsShown
      (section_clicked security
        ∷ pw_typed (record empty_pw { new_password = codes "a" })
        ∷ pw_clicked
        ∷ timer
        ∷ [])
      opened (record { one = inl refl; timed = λ h. (refl, refl) })
