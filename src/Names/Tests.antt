-- ===== src/Names/Tests.antt =====
-- The name theorems on src/lib.c at single names.
use sysmon.Base.{◌≡◌, refl, true, none, some}
use sysmon.Base.Text.{codes, str_eq}
use sysmon.Names.{name_to_type, type_to_name, type_of, type_word, before_colon, four, six}
use sysmon.Names.Inverse.{full, name_to_type-type_to_name}
use sysmon.Names.{valid_sitename, all_site_chars}

name_to_type-type_to_name_example : name_to_type full (type_to_name 19) ≡ some 19
name_to_type-type_to_name_example = name_to_type-type_to_name 19 refl

takes_radius :
    name_to_type (record { disable_icmp = true; enable_snmp = true }) (codes "radius") ≡ some 14
unfolding name_to_type type_of type_word before_colon six str_eq
takes_radius = refl

-- The check of umichX500 is reported by a name that the configuration refuses.
x500_is_refused : name_to_type full (type_to_name 9) ≡ none
unfolding name_to_type type_to_name type_of type_word before_colon four str_eq
x500_is_refused = refl

-- Words of five letters never come to the branch for four.
ping6_is_refused : name_to_type full (codes "ping6") ≡ none
unfolding name_to_type type_of type_word before_colon str_eq
ping6_is_refused = refl

is_valid : valid_sitename (codes "ams-1") ≡ true
unfolding valid_sitename all_site_chars
is_valid = refl
