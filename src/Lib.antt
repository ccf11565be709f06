-- ===== src/Lib.antt =====
-- Tillerinobot is a chat bot for a rhythm game that recommends beatmaps, with a website, ppaddict,
-- beside it. This library models the logic that the parts of it keep state with.
--
-- The path of a chat message. An IRC front end puts each event on a queue. The preprocessor takes
-- it from there, lets at most one event of a user in at a time (the bouncer), and passes it on to
-- the bot with the limits of the game's API in force (the rate limiter). What the bot answers is a
-- tree of responses that the postprocessor sends, message by message, before it lets the next event
-- of that user in. The bot finds the user behind a name with the resolver of names, and asks its
-- command handlers one after the other. Recommendations are asked for by settings that users type,
-- predicates among them; the recommendations manager keeps the best that pass and draws from a
-- sampler without replacement. What the bot keeps of a user, the language that it speaks to the user
-- with included, is loaded for a message and saved behind it if it has changed; options are commands
-- that set and show it. The website's script keeps the state of its dialogs in the page.
--
-- Files and code. J is tillerinobot/src/main/java.
--   Limiter          J/tillerino/tillerinobot/RateLimiter.java: setThreadPriority, limitRate,
--                    addPermit, blockedTime. Permits: the loops; Calls: one call of limitRate; Runs:
--                    interleavings of threads with the schedule.
--   Chat.Bouncer     J/org/tillerino/ppaddict/chat/impl/Bouncer.java: tryEnter, get,
--                    updateIfPresent, exit. Calls: each operation; Runs: interleavings.
--   Chat.Event, Chat.Response
--                    tillerinobot-model/src/main/java/org/tillerino/ppaddict/chat: the events, and
--                    GameChatResponse.java with `then` and the order in which it is written out.
--   Chat.Preprocessor
--                    J/org/tillerino/ppaddict/chat/impl/MessagePreprocessor.java: onEvent, with the
--                    warnings for a user whose previous event is still worked on.
--   Chat.Postprocessor
--                    J/org/tillerino/ppaddict/chat/impl/ResponsePostprocessor.java: onResponse, with
--                    the retries of a message that the writer refuses.
--   Exceptions       J/tillerino/tillerinobot/IRCBot.java: isTimeout, isExternalException, and the
--                    classes of exceptions that the bot tells apart.
--   Bot              J/tillerino/tillerinobot/IRCBot.java: the whole class. Messages: handleException,
--                    checkVersionInfo, getUserOrThrow, processPrivateMessage, processPrivateAction,
--                    with Texts: what they read from a text;
--                    Events: welcomeIfDonator, visit, sendResponse, registerActivity, onEvent.
--   Pipeline         how the preprocessor, the bot and the postprocessor work together. Release: the
--                    path of one message; Runs: those of all users interleaved, with the task of
--                    J/org/tillerino/ppaddict/chat/impl/MessageHandlerScheduler.java; Scheduler:
--                    the loop of its onEvent, and how it ends.
--   Resolver         J/tillerino/tillerinobot/IrcNameResolver.java: the whole class. Coherence: the
--                    cache and the table; Reuse: what later calls see.
--   Frontend         ppaddict-site/src/main/resources/static/code.js. Time: toTime; Merge: deepMerge
--                    and rangeReq; Countdown: startCountdown and its interval; Position:
--                    positionRelativeTo and HELP_PLACEMENTS; Dialogs: the listener that opens
--                    them, updateMoreDialogLinks and updateEditDialog; Welcome: showWelcomeIfNeeded
--                    with its cookie; Help: showHelp, closeAllHelp and outsideClick; Htmx: the extension
--                    postrangerequest.
--   Commands         J/tillerino/tillerinobot/CommandHandler.java: or, handling, alwaysHandling and
--                    WithShorthand. Choices: how they combine; Shorthand: arguments; Finding and
--                    Options: J/tillerino/tillerinobot/handlers/OptionsHandler.java with the classes
--                    of handlers/options. Requests: the texts; Answers, Handlers, Shows: options
--                    that are set; Refusals: those that are not.
--   Recommend.Predicate
--                    J/tillerino/tillerinobot/predicates: NumericPropertyPredicate (test,
--                    contradicts) and NumericPredicateBuilder (build).
--   Recommend.Sampler
--                    J/tillerino/tillerinobot/recommendations/Sampler.java: the whole class.
--   Recommend.Settings, Recommend.Request
--                    J/tillerino/tillerinobot/recommendations: RecommendationRequestParser.java,
--                    RecommendationRequest.java and Model.java; predicates/PredicateParser.java and
--                    ExcludeMod.java. Verified: accepted requests; Order: settings in another order.
--   Recommend.Top, Recommend.Manager
--                    J/tillerino/tillerinobot/recommendations/RecommendationsManager.java:
--                    getTopRecommendations, loadSampler and getRecommendation for one user.
--   Users            J/tillerino/tillerinobot/UserDataManager.java: the setters of UserData and
--                    usingLanguage; Language: lang/LanguageIdentifier.java; Keeping: that changes
--                    are noted; Loading: loadUserData and saveUserData, with Rows, Reloaded and
--                    Settings on what a later load sees.
--   Lang             J/tillerino/tillerinobot/lang: StringShuffler.java (Shuffler, Rounds) and
--                    TsundereBase.java with AbstractMutableLanguage.java (Tsundere, Hugs).
--   Accuracy         J/tillerino/tillerinobot/diff/AccuracyDistribution.java: closest and
--                    getBest300s. Closest: the loop; Guess, Nearest: how close it comes; Flaws:
--                    where it does not.
--   Site             the website's server, ppaddict-site/src/main/java/org/tillerino/ppaddict.
--                    Bundle: makeBundle of server/BeatmapTableServiceImpl.java, and the row of
--                    rest/BeatmapTableResource.java that loads the next page; Bundle.Pages: all
--                    pages behind each other. Comments: server/PersistentUserData.java, with
--                    Ordering: the order of texts, Keyed: the entries with a prefix, Reads and
--                    Puts: what is read behind a put.
--   Prelude          lists, integers and Boolean tests that the parts share.
--
-- How the code is modelled. An object that changes is a record that its operations take and
-- return. Concurrent code is a relation of steps, and its runs are the sequences of steps: in
-- Chat.Bouncer.Runs a step is one updateAndGet, in Limiter.Runs one offer, poll or take of a queue
-- or one access to a thread-local value, in Frontend.Countdown.Runs one call of the script or of
-- its interval, and in Resolver.Coherence and Pipeline.Runs a whole call of one of the parts. The
-- bouncer's cache keeps its references in all of these. An interruption is modelled where the code
-- waits: in the rate limiter, in the thread pool, in the sleep between two tries of the
-- postprocessor and at the queue of responses. An `int` that only counts wraps around at 2 ^ 32.
-- Clocks, random numbers, the digits of a number and the number parser of Java, the edit distance
-- of a library, Jackson, the thread pool and the answers of the message writer are arguments. The
-- sizes and mods of the website's server are not negative. A double is NaN, infinite or a whole
-- number of some small unit, so that sums and comparisons are exact; rounding is not modelled. A
-- method of the bot returns or throws, on a state that holds the rate limiter, the queue of
-- responses and a state of any kind for what it calls: the users' data, the API and the commands,
-- which are the fields of a record; the users' data are a component of their own, that the
-- handlers of options work on. The edit distance, the class Mods of osuApiModel, the tables of the
-- database and the recommender are parameters in the same way. Loops are by recursion on a list or
-- on a counter that the source bounds itself (three queues, ten retries, three tries of a number
-- of 300s); only the loop of the scheduler, which the source does not bound, is on fuel: one more
-- than the rounds that do not decide is enough, and any more fuel gives the same. The pages that a
-- table loads are counted too: so many that they hold the whole selection are enough.
--
-- Not modelled: what the commands compute (the handlers but those of options), the expiry of
-- caches, that of the bouncer's included, which drops a lock that was not accessed for an hour;
-- the methods of the recommendations manager that only pass a call on, the difficulty calculation
-- and AccuracyDistribution.model in floating point, the mapper to the database, the clients for
-- IRC and the live view in Rust, the transport over RabbitMQ, and the widgets, the servlets and
-- the search of the website. The texts of the bot's languages and vendored scripts have no logic
-- of their own.
pub mod Prelude
pub mod Pipeline
pub mod Resolver
pub mod Lang
pub mod Limiter
pub mod Exceptions
pub mod Accuracy
pub mod Bot
pub mod Chat
pub mod Commands
pub mod Frontend
pub mod Recommend
pub mod Site
pub mod Users
