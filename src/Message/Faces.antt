-- ===== src/Message/Faces.antt =====
-- `face_text` of msg3_parser.rs with its table of names.
use qq_analyzer.Base.{ℕ, ◌++◌, List, [], ◌∷◌, Option, none, some, ◌==◌, if◌then◌else◌, get_elem?}
use qq_analyzer.Text.{Text, lit, decimal}
use qq_analyzer.Text.Find.{bracketed}

abbrev pub faces : List Text
faces =
    lit "微笑"
    ∷ lit "撇嘴"
    ∷ lit "色"
    ∷ lit "发呆"
    ∷ lit "得意"
    ∷ lit "流泪"
    ∷ lit "害羞"
    ∷ lit "闭嘴"
    ∷ lit "睡"
    ∷ lit "大哭"
    ∷ lit "尴尬"
    ∷ lit "发怒"
    ∷ lit "调皮"
    ∷ lit "呲牙"
    ∷ lit "惊讶"
    ∷ lit "难过"
    ∷ lit "酷"
    ∷ lit "冷汗"
    ∷ lit "抓狂"
    ∷ lit "吐"
    ∷ lit "偷笑"
    ∷ lit "可爱"
    ∷ lit "白眼"
    ∷ lit "傲慢"
    ∷ lit "饥饿"
    ∷ lit "困"
    ∷ lit "惊恐"
    ∷ lit "流汗"
    ∷ lit "憨笑"
    ∷ lit "大兵"
    ∷ lit "奋斗"
    ∷ lit "咒骂"
    ∷ lit "疑问"
    ∷ lit "嘘"
    ∷ lit "晕"
    ∷ lit "折磨"
    ∷ lit "衰"
    ∷ lit "骷髅"
    ∷ lit "敲打"
    ∷ lit "再见"
    ∷ lit "擦汗"
    ∷ lit "抠鼻"
    ∷ lit "鼓掌"
    ∷ lit "糗大了"
    ∷ lit "坏笑"
    ∷ lit "左哼哼"
    ∷ lit "右哼哼"
    ∷ lit "哈欠"
    ∷ lit "鄙视"
    ∷ lit "委屈"
    ∷ lit "快哭了"
    ∷ lit "阴险"
    ∷ lit "亲亲"
    ∷ lit "吓"
    ∷ lit "可怜"
    ∷ lit "菜刀"
    ∷ lit "西瓜"
    ∷ lit "啤酒"
    ∷ lit "篮球"
    ∷ lit "乒乓"
    ∷ lit "咖啡"
    ∷ lit "饭"
    ∷ lit "猪头"
    ∷ lit "玫瑰"
    ∷ lit "凋谢"
    ∷ lit "示爱"
    ∷ lit "爱心"
    ∷ lit "心碎"
    ∷ lit "蛋糕"
    ∷ lit "闪电"
    ∷ lit "炸弹"
    ∷ lit "刀"
    ∷ lit "足球"
    ∷ lit "瓢虫"
    ∷ lit "便便"
    ∷ lit "月亮"
    ∷ lit "太阳"
    ∷ lit "礼物"
    ∷ lit "拥抱"
    ∷ lit "强"
    ∷ lit "弱"
    ∷ lit "握手"
    ∷ lit "胜利"
    ∷ lit "抱拳"
    ∷ lit "勾引"
    ∷ lit "拳头"
    ∷ lit "差劲"
    ∷ lit "爱你"
    ∷ lit "NO"
    ∷ lit "OK"
    ∷ lit "爱情"
    ∷ lit "飞吻"
    ∷ lit "跳跳"
    ∷ lit "发抖"
    ∷ lit "怄火"
    ∷ lit "转圈"
    ∷ lit "磕头"
    ∷ lit "回头"
    ∷ lit "跳绳"
    ∷ lit "挥手"
    ∷ lit "激动"
    ∷ lit "街舞"
    ∷ lit "献吻"
    ∷ lit "左太极"
    ∷ lit "右太极"
    ∷ []

unfoldable pub extended_face_shortcut : ℕ → Option Text
extended_face_shortcut id = if id == 212 then some (lit "/qw") else none

abbrev shortcut_or_number : ℕ → Option Text → Text
shortcut_or_number id (some shortcut) = bracketed shortcut
shortcut_or_number id none = lit "[face:" ++ decimal id ++ lit "]"

abbrev face_or_other : ℕ → Option Text → Text
face_or_other id (some name) = bracketed name
face_or_other id none = shortcut_or_number id (extended_face_shortcut id)

unfoldable pub face_text : ℕ → Text
face_text id = face_or_other id (get_elem? faces id)
