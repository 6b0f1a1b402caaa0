-- ===== src/Tests/Naming.antt =====
-- Names.
use cert_manager_webhook_mij.Prelude.{
  ◌≡◌, refl, true, ◌∷◌, ◌++◌, codes, text_eq, trim_suffix, has_prefix, has_suffix, ◌⊎◌,
}
use cert_manager_webhook_mij.Names.{
  absolute_name, object_name, object_prefix, lower_rune, is_label_rune, label_rune, trim_left,
  trim_right,
}
use cert_manager_webhook_mij.Names.Absolute.{in_zone, absolute_name-InZone}
use cert_manager_webhook_mij.Names.Objects.{
  OfRunes, IsPunctuation, last_or, object_name-IsValid, object_name_collision,
}

relative_name :
    absolute_name (codes "_acme-challenge.a") (codes "b.nl.") ≡ codes "_acme-challenge.a.b.nl."
unfolding absolute_name text_eq has_suffix trim_suffix
relative_name = refl

absolute_already :
    absolute_name (codes "_acme-challenge.b.nl") (codes "b.nl.") ≡ codes "_acme-challenge.b.nl."
unfolding absolute_name text_eq has_suffix trim_suffix
absolute_already = refl

zone_itself : absolute_name (codes "@") (codes "b.nl") ≡ codes "b.nl."
unfolding absolute_name text_eq has_suffix trim_suffix
zone_itself = refl

punctuation_trimmed : object_name (codes "-Exa_mple.NL.") ≡ codes "mijn-host-zone-exa-mple-nl"
unfolding object_name text_eq lower_rune label_rune trim_left trim_right trim_suffix
punctuation_trimmed = refl

absolute_name-InZone_example :
    (absolute_name (codes "a") (codes "b.nl")
      ≡ trim_suffix (absolute_name (codes "a") (codes "b.nl")) b'.' ++ codes ".")
    × (in_zone
          (trim_suffix (absolute_name (codes "a") (codes "b.nl")) b'.')
          (trim_suffix (codes "b.nl") b'.')
        ≡ true)
absolute_name-InZone_example = absolute_name-InZone (codes "a") (codes "b.nl")

object_name-IsValid_example :
    OfRunes (object_name (codes "b.nl"))
    × (has_prefix (object_name (codes "b.nl")) object_prefix ≡ true)
    × ((is_label_rune (last_or 0 (object_name (codes "b.nl"))) ≡ true)
        ⊎ IsPunctuation (trim_suffix (codes "b.nl") b'.'))
object_name-IsValid_example = object_name-IsValid (codes "b.nl")

-- The zones my-shop.nl and my.shop.nl.
object_name_collision_example :
    object_name (codes "my" ++ b'.' ∷ codes "shop.nl")
    ≡ object_name (codes "my" ++ b'-' ∷ codes "shop.nl")
unfolding is_label_rune lower_rune
object_name_collision_example =
    object_name_collision (codes "my") (codes "shop.nl") b'.' b'-' (λ e. cc e) refl refl
