-- ===== src/Tests/Keys.antt =====
-- Filters, addresses, identities and options.
use p2p_verse.Common.{◌≡◌, refl, true, none, codes, bytes_eq}
use p2p_verse.Std.Base64.{encode}
use p2p_verse.External.Datastore.{Entry}
use p2p_verse.Std.Text.{split, trim_slash}
use p2p_verse.Crdt.Filters.{key_match, parts}

abbrev entry : Entry
entry = record { key = codes "/pid/aaa/t1"; value = none; size = 0 }

star_pattern : key_match (codes "*/aaa") entry ≡ true
unfolding key_match parts split trim_slash bytes_eq
star_pattern = refl

encoded : encode (codes "meow") ≡ codes "bWVvdw=="
unfolding encode
encoded = refl
