-- ===== src/Bot/News/Publish/Steps.antt =====
-- bot/news/jobs.py, _publish_one: the transactions of any number of concurrent runs, in any order,
-- with runs that stop halfway, and with other writers of the items (the crawl, the renderer, the
-- dashboard), who never write a row of `news_channel_posts`.
use poly_holy_market_bot.Prelude.{ℕ, ◌≡◌, Bool, true, not, Option, none, some, List, [], ◌∷◌, ◌++◌}
use poly_holy_market_bot.Db.News.{NewsItem, NewsDb}
use poly_holy_market_bot.Bot.News.Publish.{
  Slot, Answer, failed, Telegram, claim, finalize, send_card, show_card,
}

-- A run between its first and its last transaction.
pub data Job : Type 0 where
  claimed : Slot → NewsItem → Job
  answered : Slot → Option ℕ → Job

pub record Publishing : Type 0 where
  pub news : NewsDb
  pub channel : List Slot
  pub jobs : List Job

-- No answer was lost: a card that was not answered with a message id is not shown.
abbrev pub answers_known : Answer → Bool
answers_known (failed seen) = not seen
answers_known _ = true

abbrev pub IsHonest : Telegram → Type 0
IsHonest tg =
    (answers_known tg.photo ≡ true)
    × (answers_known tg.html ≡ true)
    × (answers_known tg.plain ≡ true)

abbrev pub job_of : Slot → Option NewsItem → List Job
job_of sl none = []
job_of sl (some i) = claimed sl i ∷ []

pub data Step : Publishing → Publishing → Type 0 where
  claims :
      (now : ℕ) (sl : Slot) (s : Publishing)
      → Step s (record s {
        news = (claim now sl s.news).1;
        jobs = job_of sl (claim now sl s.news).0 ++ s.jobs;
      })
  sends :
      (tg : Telegram) (sl : Slot) (i : NewsItem) (before after : List Job) (news : NewsDb)
      (channel : List Slot)
      → IsHonest tg
      → Step
          (record { news = news; channel = channel; jobs = before ++ claimed sl i ∷ after })
          (record {
            news = news;
            channel = show_card sl (send_card tg i).1 channel;
            jobs = before ++ answered sl (send_card tg i).0 ∷ after;
          })
  finalizes :
      (now : ℕ) (sl : Slot) (answer : Option ℕ) (before after : List Job) (news : NewsDb)
      (channel : List Slot)
      → Step
          (record { news = news; channel = channel; jobs = before ++ answered sl answer ∷ after })
          (record { news = finalize now sl answer news; channel = channel; jobs = before ++ after })
  stops :
      (j : Job) (before after : List Job) (news : NewsDb) (channel : List Slot)
      → Step
          (record { news = news; channel = channel; jobs = before ++ j ∷ after })
          (record { news = news; channel = channel; jobs = before ++ after })
  edits : (db : NewsDb) (s : Publishing) → db.posts ≡ s.news.posts → Step s (record s { news = db })

pub data Reach (s : Publishing) : Publishing → Type 0 where
  here : Reach s s
  next : {t u : Publishing} → Reach s t → Step t u → Reach s u
