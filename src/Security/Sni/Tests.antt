-- ===== src/Security/Sni/Tests.antt =====
-- internal/security/reality.go: `SNIExtract` at concrete inputs.
use nightveil.Prelude.{Bytes, codes, refl, replicate, some, ◌++◌, ◌≡◌, ◌∷◌}
use nightveil.Security.Sni.{sni_extract}
use nightveil.Security.Sni.Total.{sni_extract_total}

-- A ClientHello with one cipher suite, one compression method and two extensions, the second of
-- which names nv.org.
abbrev hello : Bytes
hello =
    22
    ∷ 3
    ∷ 1
    ∷ 0
    ∷ 70
    ∷ 1
    ∷ 0
    ∷ 0
    ∷ 66
    ∷ 3
    ∷ 3
    ∷ (replicate 32 7
        ++ 0
          ∷ 0
          ∷ 2
          ∷ 19
          ∷ 1
          ∷ 1
          ∷ 0
          ∷ 0
          ∷ 20
          ∷ 0
          ∷ 23
          ∷ 0
          ∷ 1
          ∷ 9
          ∷ 0
          ∷ 0
          ∷ 0
          ∷ 11
          ∷ 0
          ∷ 9
          ∷ 0
          ∷ 0
          ∷ 6
          ∷ codes "nv.org")

sni_extract_test : sni_extract hello ≡ some (codes "nv.org")
unfolding sni_extract
sni_extract_test = refl

sni_extract_total_example : (name : Bytes) × (sni_extract hello ≡ some name)
sni_extract_total_example = sni_extract_total hello
