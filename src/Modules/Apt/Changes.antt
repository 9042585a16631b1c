-- ===== src/Modules/Apt/Changes.antt =====
-- What the apt module reads from the output of apt-get.
use ansible_go.Base.{◌≡◌, refl, String, ◌<>◌, false, has_text-behind, has_text-append}
use ansible_go.Modules.Apt.{says_changed}

-- Outside check mode, an output that has "0 upgraded", "0 newly installed" and "0 to remove" in
-- this order is taken for no change, whatever stands in front of each, a digit included: so are
-- ten packages that were installed.
pub says_changed_misses :
    (a b c d : String)
    → says_changed false
        (a <> ("0 upgraded" <> (b <> ("0 newly installed" <> (c <> ("0 to remove" <> d))))))
      ≡ false
unfolding says_changed
says_changed_misses a b c d =
    let tail = "0 to remove" <> d in
    let middle = "0 newly installed" <> (c <> tail) in
    rw
      (
        has_text-behind "0 newly installed" a ("0 upgraded" <> (b <> middle)) (
            has_text-behind "0 newly installed" "0 upgraded" (b <> middle) (
              has_text-behind "0 newly installed" b middle
                (has_text-append "0 newly installed" (c <> tail)))),
        has_text-behind "0 to remove" a ("0 upgraded" <> (b <> middle)) (
            has_text-behind "0 to remove" "0 upgraded" (b <> middle) (
              has_text-behind "0 to remove" b middle (
                has_text-behind "0 to remove" "0 newly installed" (c <> tail)
                  (has_text-behind "0 to remove" c tail (has_text-append "0 to remove" d))))),
        has_text-behind "0 upgraded" a ("0 upgraded" <> (b <> middle))
            (has_text-append "0 upgraded" (b <> middle)),
      )
      refl
