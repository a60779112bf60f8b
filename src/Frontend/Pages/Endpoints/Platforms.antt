-- ===== src/Frontend/Pages/Endpoints/Platforms.antt =====
-- The platform that the dialog of the agents starts with.
use trust_vault.Prelude.{
  ◌≡◌, ◌≢◌, true, false, ◌||◌, Option, none, some, Text, text, includes, if◌then◌else◌, arith,
}

pub data Platform : Type 0 where
  linux_amd64 linux_arm64 darwin_amd64 darwin_arm64 windows_amd64 : Platform

-- What the page reads of the browser: `renderer` is the name of the WebGL renderer, if it can be read.
pub record Navigator : Type 0 where
  pub user_agent : Text
  pub platform : Option Text
  pub renderer : Option Text

-- Both ways out of the branch for a Mac.
abbrev pub mac_platform : Option Text → Platform
mac_platform none = Platform.darwin_arm64
mac_platform (some renderer) =
    if includes (text "Apple M") renderer || includes (text "Apple GPU") renderer
    then Platform.darwin_arm64
    else Platform.darwin_arm64

-- `navigator.platform?.toLowerCase() || ''`
abbrev pub lower_or_empty : (Text → Text) → Option Text → Text
lower_or_empty to_lower none = text ""
lower_or_empty to_lower (some t) = to_lower t

-- `none` is a page that is rendered without a window.
unfoldable pub detect_platform : (Text → Text) → Option Navigator → Platform
detect_platform to_lower none = Platform.linux_amd64
detect_platform to_lower (some navigator) =
    let ua = to_lower navigator.user_agent in
    let platform = lower_or_empty to_lower navigator.platform in
    if includes (text "win") ua
    then Platform.windows_amd64
    else if includes (text "mac") ua || includes (text "mac") platform
    then mac_platform navigator.renderer
    else if includes (text "linux") ua
    then (if includes (text "aarch64") ua || includes (text "arm64") ua
        then Platform.linux_arm64
        else Platform.linux_amd64)
    else Platform.linux_amd64

-- No browser is taken for a Mac with an Intel processor, and any Mac whose browser does not name 'win'
-- for one with Apple Silicon, whatever its renderer says.
pub detect_platform_mac :
    (to_lower : Text → Text) (navigator : Navigator)
    → (detect_platform to_lower (some navigator) ≢ Platform.darwin_amd64)
      × (includes (text "win") (to_lower navigator.user_agent) ≡ false
          → includes (text "mac") (to_lower navigator.user_agent) ≡ true
          → detect_platform to_lower (some navigator) ≡ Platform.darwin_arm64)
unfolding detect_platform
detect_platform_mac to_lower navigator = (λ e. ground (arith, e), λ w m. ground (arith, w, m))
