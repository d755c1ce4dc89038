-- ===== src/Phone/Countries.antt =====
-- The table COUNTRIES of frontend/react-app/src/components/PhoneInput.jsx, less the flags, which are
-- only drawn.
use Prim.Native.String.{String}
use hotel_ms.Common.{ℕ, List, [], ◌∷◌, Text, codes}

pub record Country : Type 0 where
  pub code : Text
  pub name : Text
  pub dial : Text
  pub digits : ℕ
  pub mask : Text

abbrev country : String → String → String → ℕ → String → Country
country c n d k m = record {
  code = codes c;
  name = codes n;
  dial = codes d;
  digits = k;
  mask = codes m;
}

unfoldable pub countries : List Country
countries =
    country "UZ" "Uzbekistan" "+998" 9 "(XX) XXX-XX-XX"
    ∷ country "US" "United States" "+1" 10 "(XXX) XXX-XXXX"
    ∷ country "CA" "Canada" "+1" 10 "(XXX) XXX-XXXX"
    ∷ country "GB" "United Kingdom" "+44" 10 "XXXX XXXXXX"
    ∷ country "RU" "Russia" "+7" 10 "(XXX) XXX-XX-XX"
    ∷ country "KZ" "Kazakhstan" "+7" 10 "(XXX) XXX-XX-XX"
    ∷ country "TR" "Turkey" "+90" 10 "(XXX) XXX XX XX"
    ∷ country "DE" "Germany" "+49" 10 "XXX XXXXXXX"
    ∷ country "FR" "France" "+33" 9 "X XX XX XX XX"
    ∷ country "IT" "Italy" "+39" 10 "XXX XXX XXXX"
    ∷ country "ES" "Spain" "+34" 9 "XXX XXX XXX"
    ∷ country "CN" "China" "+86" 11 "XXX XXXX XXXX"
    ∷ country "IN" "India" "+91" 10 "XXXXX XXXXX"
    ∷ country "PK" "Pakistan" "+92" 10 "(XXX) XXXXXXX"
    ∷ country "AE" "UAE" "+971" 9 "XX XXX XXXX"
    ∷ country "SA" "Saudi Arabia" "+966" 9 "XX XXX XXXX"
    ∷ country "KG" "Kyrgyzstan" "+996" 9 "(XXX) XXX-XXX"
    ∷ country "TJ" "Tajikistan" "+992" 9 "XX XXX XXXX"
    ∷ country "TM" "Turkmenistan" "+993" 8 "XXXX XXXX"
    ∷ country "AZ" "Azerbaijan" "+994" 9 "XX XXX XXXX"
    ∷ country "GE" "Georgia" "+995" 9 "XXX XXX XXX"
    ∷ country "AM" "Armenia" "+374" 8 "XX XXXXXX"
    ∷ country "UA" "Ukraine" "+380" 9 "(XX) XXX-XX-XX"
    ∷ country "BY" "Belarus" "+375" 9 "(XX) XXX-XX-XX"
    ∷ country "PL" "Poland" "+48" 9 "XXX XXX XXX"
    ∷ country "NL" "Netherlands" "+31" 9 "X XX XX XX XX"
    ∷ country "SE" "Sweden" "+46" 9 "XX XXX XXXX"
    ∷ country "NO" "Norway" "+47" 8 "XXXX XXXX"
    ∷ country "AU" "Australia" "+61" 9 "XXX XXX XXX"
    ∷ country "JP" "Japan" "+81" 10 "XX XXXX XXXX"
    ∷ country "KR" "South Korea" "+82" 10 "XX XXXX XXXX"
    ∷ country "BR" "Brazil" "+55" 11 "(XX) XXXXX-XXXX"
    ∷ country "MX" "Mexico" "+52" 10 "XXX XXX XXXX"
    ∷ country "AR" "Argentina" "+54" 10 "(XXX) XXX-XXXX"
    ∷ country "ZA" "South Africa" "+27" 9 "XX XXX XXXX"
    ∷ country "EG" "Egypt" "+20" 10 "XXX XXX XXXX"
    ∷ country "NG" "Nigeria" "+234" 10 "XXX XXX XXXX"
    ∷ country "SG" "Singapore" "+65" 8 "XXXX XXXX"
    ∷ country "MY" "Malaysia" "+60" 9 "XX XXXX XXXX"
    ∷ country "ID" "Indonesia" "+62" 10 "XXX XXXX XXXX"
    ∷ country "PH" "Philippines" "+63" 10 "XXX XXX XXXX"
    ∷ country "TH" "Thailand" "+66" 9 "XX XXX XXXX"
    ∷ country "IL" "Israel" "+972" 9 "XX XXX XXXX"
    ∷ []
