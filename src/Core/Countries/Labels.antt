-- ===== src/Core/Countries/Labels.antt =====
-- The names of countries (`country_label` in backend/app/core/countries.py).
use restock_system.Common.{
  Dict, Text, codes, Option, ◌∷◌, get, some, [], ◌++◌, if◌then◌else◌, text_eq, is_nil, none,
}
use restock_system.Common.Strings.{Unicode}
use restock_system.Core.Countries.{resolve_alias, trimmed_upper}

abbrev pub builtin_country_names : Dict Text Text
builtin_country_names =
    (codes "EU", codes "欧盟")
    ∷ (codes "ZZ", codes "无法识别国家")
    ∷ (codes "CN", codes "中国")
    ∷ (codes "US", codes "美国")
    ∷ (codes "CA", codes "加拿大")
    ∷ (codes "MX", codes "墨西哥")
    ∷ (codes "GB", codes "英国")
    ∷ (codes "CZ", codes "捷克")
    ∷ (codes "DE", codes "德国")
    ∷ (codes "FR", codes "法国")
    ∷ (codes "IT", codes "意大利")
    ∷ (codes "ES", codes "西班牙")
    ∷ (codes "IN", codes "印度")
    ∷ (codes "JP", codes "日本")
    ∷ (codes "AU", codes "澳大利亚")
    ∷ (codes "AT", codes "奥地利")
    ∷ (codes "CH", codes "瑞士")
    ∷ (codes "CY", codes "塞浦路斯")
    ∷ (codes "DK", codes "丹麦")
    ∷ (codes "EE", codes "爱沙尼亚")
    ∷ (codes "FI", codes "芬兰")
    ∷ (codes "LT", codes "立陶宛")
    ∷ (codes "LV", codes "拉脱维亚")
    ∷ (codes "MT", codes "马耳他")
    ∷ (codes "SI", codes "斯洛文尼亚")
    ∷ (codes "AE", codes "阿联酋")
    ∷ (codes "TR", codes "土耳其")
    ∷ (codes "SG", codes "新加坡")
    ∷ (codes "BR", codes "巴西")
    ∷ (codes "NL", codes "荷兰")
    ∷ (codes "RO", codes "罗马尼亚")
    ∷ (codes "SA", codes "沙特阿拉伯")
    ∷ (codes "SE", codes "瑞典")
    ∷ (codes "PL", codes "波兰")
    ∷ (codes "BE", codes "比利时")
    ∷ (codes "IE", codes "爱尔兰")
    ∷ []

abbrev pub labelled_with : Text → Option Text → Text
labelled_with normalized none = normalized
labelled_with normalized (some name) = normalized ++ codes " - " ++ name

-- `overrides.get(normalized) or BUILTIN_COUNTRY_NAMES.get(normalized)`
abbrev pub name_or_builtin : Text → Option Text → Option Text
name_or_builtin normalized none = get normalized builtin_country_names
name_or_builtin normalized (some name) =
    if is_nil name then get normalized builtin_country_names else some name

unfoldable pub country_label : Unicode → Text → Dict Text Text → Text
country_label u code overrides =
    let normalized = resolve_alias (trimmed_upper u (some code)) in
    labelled_with normalized (name_or_builtin normalized (get normalized overrides))
