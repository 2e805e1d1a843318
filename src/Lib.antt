-- ===== src/Lib.antt =====
-- Verification of the Polymarket trading bot: the Python packages core, db, polymarket, bot,
-- webapp and dashboard, component by component.
--
-- A user's tap or command becomes an intent, which bot/handlers/confirm.py shows, confirms and
-- executes: it takes a signing client from polymarket/account_manager.py, sends one call through
-- polymarket/client.py, and records the order, the audit rows, the activity and a news bet in the
-- database. The job of bot/jobs.py reads the resolutions of markets through polymarket/markets.py
-- and settles the bets, their statistics and their rewards. The rate limiter of core/ratelimit.py
-- stands in front of the handlers.
--
-- Prelude: the library names in use, Boolean tests, lists as tables of rows, ASCII text, signed
-- integers, equality of keys as an instance.
--
-- Core.RateLimit is core/ratelimit.py, the sliding-window limiter; Window has what it promises of
-- every interval of time.
--
-- Db.Models has the tables of db/models.py that the modelled code reads and writes, as lists of
-- rows in insertion order; columns that no modelled code reads are left out, and one sequence
-- next_id gives all primary keys. Db.Stats, Db.Bets, Db.Rewards, Db.Users, Db.Accounts,
-- Db.PendingIntents and Db.Orders are the repositories of these names under db/repositories, one
-- function for each function of the source.
--
-- Db.News has the tables of the news pipeline. Db.NewsItems, Db.NewsPrefs and Db.NewsDelivery are
-- the repositories db/repositories/news_items.py, news_prefs.py and news_delivery.py.
--
-- Polymarket.Markets is polymarket/markets.py: normalization and resolution of a Gamma market,
-- with Cache for the TTL cache, Fetch for the reads through it, and Ranking for the listings.
-- Polymarket.AccountManager is polymarket/account_manager.py, and Polymarket.Client is
-- polymarket/client.py with the credentials of polymarket/credentials.py. Polymarket.Auth is
-- polymarket/auth.py.
--
-- Bot.Settlement is settlement_job of bot/jobs.py; Bot.Intent and Bot.Confirm are
-- bot/handlers/confirm.py, the first with what an intent needs and how an answer is read, the
-- second with the handlers. Bot.Access is bot/access_gate.py and _enforce_access_gate of
-- bot/middleware.py. Webapp.Bet is place_bet of webapp/routers/api.py, the real order of the Mini
-- App.
--
-- The news pipeline crawls feeds, approves and renders items, posts them to a channel and sends
-- them to the users; a button of a post leads back into the bot and to a bet. Bot.News.Crawler is
-- the guarded HTTP client of bot/news/crawler.py, Bot.News.Crawl is crawl_job of bot/news/jobs.py,
-- Bot.News.Publish is publish_job with the sending of bot/news/publisher.py, where Steps has the
-- transactions of concurrent runs as a relation, and Bot.News.Deliver is _deliver. Bot.News.Links
-- has the links of bot/news/cta.py, Bot.Start is the command of bot/handlers/start.py that reads
-- them, and Bot.Discover is the bet funnel of bot/handlers/discover.py, which hands its order to
-- Bot.Confirm.
--
-- Bot.Connect is bot/handlers/connect.py: the handlers that ask for a wallet and its key, with
-- Table for the buttons and the table of stages that register declares, Ends for the ways in which
-- a key message ends, Saved for what is stored, and Disconnect for /disconnect. A connection
-- continues into the bet funnel of Bot.Discover when a bet link was stored. Bot.Trading is
-- bot/handlers/trading.py, the commands whose intents go to Bot.Confirm. Bot.Broadcast is
-- broadcast_job of bot/jobs.py with the page that fills its queue, in the three phases of a run,
-- over Db.Commands, which is db/repositories/commands.py.
--
-- Dashboard is the package of the administration pages: Dashboard.Users has the list of users and
-- the decisions about their status, from dashboard/repo.py and dashboard/routers/pages.py, and
-- Dashboard.Paging the numbered pages.
--
-- Numbers: money is in micro-dollars, prices are in millionths, sizes in millionths of a share,
-- Brier scores at scale 10^-12, all natural numbers, with the profit of a bet a signed integer.
-- The size of a capped buy is computed in doubles, with their rounding (Polymarket.Client.double,
-- for quotients of at least 2^-28 and below 2^53, which 80 doublings reach). Elsewhere a quotient
-- is rounded down where the source divides floats; the rounding of a float, and of a NUMERIC
-- column on its way to the database, is not modelled there. A referral percentage is base * rate /
-- 100, as int(base * rate) has it. Days are numbered, times are seconds or ticks that the caller
-- passes in, as the source reads a clock.
--
-- Text is a list of code points; lower, upper and strip act on ASCII.
--
-- What stands outside is a parameter: the replies of the Gamma API and json.loads, the answers of
-- the exchange and the SDK, the key cipher, the SHA-256 of an idempotency key, the faults of best-
-- effort writes and of savepoints, the answers of Telegram, DNS and web servers, the parsers of
-- URLs and addresses, the time zones, and the SHA-256 of a title. A parameter with a hypothesis
-- (decryption undoes encryption, a load gives a client of the account that it was asked for) has
-- an instance in the tests.
--
-- Loops are structural recursion, over the rows, the entries of a cache or the referral rates, so
-- that each definition is total; only the scaling of a double counts a bound down. The redirects
-- of the crawler are counted down from the six turns that the source gives its loop, and a decimal
-- numeral is printed in n + 1 rounds, more than its digits. The locks of the source make each
-- operation one step; Polymarket.AccountManager.Isolation has the steps between two awaits as a
-- relation, so that calls interleave.
--
-- Not modelled: runs of a broadcast that stop between a send and its mark, the text of messages
-- and keyboards, the inquiry handlers, the rendering of news by language models and the parsing of
-- feeds, the status that bot/middleware.py keeps for a while and by which preprocess stops a
-- suspended user, the page of one user, the other pages and the login of the dashboard, the reads
-- of the Mini App API, the migrations and the front end.
pub mod Prelude
pub mod Bot
pub mod Core
pub mod Dashboard
pub mod Db
pub mod Polymarket
pub mod Webapp
